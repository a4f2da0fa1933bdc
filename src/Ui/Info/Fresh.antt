-- ===== src/Ui/Info/Fresh.antt =====
-- ipanel.go `update`: what an early return leaves on the panel.
use govisor.Common.{
  ℕ, ==_iff, ap, ◌∙◌, String, str_append, Bool, true, false, ◌&&◌, Option, none, some, List, [],
  ◌≡◌, refl, arith, Bool-cases, ◌⊎◌, inl, inr,
}
use govisor.Client.Http.{Failure}
use govisor.Ui.Bar.{Style, normal, bad, mark_words, set_keys}
use govisor.Ui.Events.{
  Item, Fault, kept, not_found, item_of, fault_of, fault_message, Screen, service_style,
}
use govisor.Ui.Info.{InfoPanel, same_item, same_fault, info_lines, words, redraw, update}

-- What is to be on the panel, for a service or none.
pub text_of : Screen → Option Item → List String
text_of screen none = []
text_of screen (some s) = info_lines screen s.info

pub status_of : Option Item → Option Fault → String
status_of (some s) e = ""
status_of none none = "Loading..."
status_of none (some e) = str_append "No data: " (fault_message e)

pub style_of : Option Item → Option Fault → Style
style_of (some s) e = service_style s.info
style_of none none = normal
style_of none (some e) = bad

pub record Shown (screen : Screen) (i : InfoPanel) : Type 0 where
  pub same_text : i.text ≡ text_of screen i.info
  pub same_status : i.panel.status ≡ status_of i.info i.err
  pub same_style : i.panel.style ≡ style_of i.info i.err
  pub same_keys : i.panel.keys ≡ mark_words (words i.info)

redraw-Shown :
    (screen : Screen) (o : Option Item) (e : Option Fault) (i : InfoPanel)
    → Shown screen (redraw screen o (record i { info = o; err = e }))
unfolding redraw text_of status_of style_of set_keys
redraw-Shown screen none none i = record {
  same_text = refl;
  same_status = refl;
  same_style = refl;
  same_keys = refl;
}
redraw-Shown screen none (some e) i = record {
  same_text = refl;
  same_status = refl;
  same_style = refl;
  same_keys = refl;
}
redraw-Shown screen (some s) e i = record {
  same_text = refl;
  same_status = refl;
  same_style = refl;
  same_keys = refl;
}

info-redraw :
    (screen : Screen) (o : Option Item) (e : Option Fault) (i : InfoPanel)
    → (redraw screen o (record i { info = o; err = e })).info ≡ o
unfolding redraw
info-redraw screen none e i = refl
info-redraw screen (some s) e i = refl

-- Where a pointer was seen before, its service is the same, and so is its error.
unfoldable pub SamePointer : Option Item → Option Item → Type 0
SamePointer o p = (x y : Item) → o ≡ some x → p ≡ some y → x.address ≡ y.address → x ≡ y

unfoldable pub SameFailure : Option Fault → Option Fault → Type 0
SameFailure o p = (a : ℕ) (f g : Failure) → o ≡ some (kept a f) → p ≡ some (kept a g) → f ≡ g

same_item-eq : (o p : Option Item) → SamePointer o p → same_item o p ≡ true → o ≡ p
unfolding SamePointer
same_item-eq none none h e = refl
same_item-eq none (some y) h e = ground (arith, e)
same_item-eq (some x) none h e = ground (arith, e)
same_item-eq (some x) (some y) h e = ap some (h x y refl refl ((==_iff x.address y.address).0 e))

same_fault-eq : (o p : Option Fault) → SameFailure o p → same_fault o p ≡ true → o ≡ p
unfolding SameFailure
same_fault-eq none none h e = refl
same_fault-eq none (some y) h e = ground (arith, e)
same_fault-eq (some (kept a f)) none h e = ground (arith, e)
same_fault-eq (some not_found) none h e = ground (arith, e)
same_fault-eq (some not_found) (some (kept b g)) h e = ground (arith, e)
same_fault-eq (some not_found) (some not_found) h e = ground (arith, e)
same_fault-eq (some (kept a f)) (some not_found) h e = ground (arith, e)
same_fault-eq (some (kept a f)) (some (kept b g)) h e =
    let same : a ≡ b = (==_iff a b).0 e in
    ap some (ap (λ k. kept k f) same ∙ ap (kept b) (h b f g (ap (λ k. some (kept k f)) same) refl))

-- A panel on which nothing was shown yet.
pub data Blank (i : InfoPanel) : Type 0 where
  blank : i.info ≡ none → i.err ≡ none → Blank i

not_blank :
    (r : Fault ⊎ Item) (i : InfoPanel)
    → Blank i
    → same_item i.info (item_of r) && same_fault i.err (fault_of r) ≡ false
not_blank (inl (kept n f)) i (blank e f') = rw (e, f') refl
not_blank (inl not_found) i (blank e f) = rw (e, f) refl
not_blank (inr s) i (blank e f) = rw e refl

and_parts : (a b : Bool) → a && b ≡ true → (a ≡ true) × (b ≡ true)
and_parts a b h = (ground (arith, h), ground (arith, h))

err-redraw :
    (screen : Screen) (o : Option Item) (e : Option Fault) (i : InfoPanel)
    → (redraw screen o (record i { info = o; err = e })).err ≡ e
unfolding redraw
err-redraw screen none e i = refl
err-redraw screen (some s) e i = refl

-- Though update of the panel of a service returns early if the service and the error are those
-- that it saw last, the panel then has the service and the error that GetItem returns, and shows
-- the lines, the status, its style and the keys that go with them, if a pointer that was seen
-- before still stands for the same service, or the same error, and the panel was blank or showed
-- what goes with it before.
pub update-Shown :
    (screen : Screen) (r : Fault ⊎ Item) (i : InfoPanel)
    → SamePointer i.info (item_of r)
    → SameFailure i.err (fault_of r)
    → Shown screen i ⊎ Blank i
    → Shown screen (update screen r i)
      × ((update screen r i).info ≡ item_of r)
      × ((update screen r i).err ≡ fault_of r)
unfolding update
update-Shown screen r i same fail h =
    elim (Bool-cases (same_item i.info (item_of r) && same_fault i.err (fault_of r))) [
      | inr e ↦
          rw (e, update)
            (
              redraw-Shown screen (item_of r) (fault_of r) i,
              info-redraw screen (item_of r) (fault_of r) i,
              err-redraw screen (item_of r) (fault_of r) i,
            )
      | inl e ↦ elim h [
        | inl g ↦
            let (a, b) =
              and_parts (same_item i.info (item_of r)) (same_fault i.err (fault_of r)) e in
            rw (e, update)
              (g, same_item-eq i.info (item_of r) same a, same_fault-eq i.err (fault_of r) fail b)
        | inr g ↦ ground (arith, e, not_blank r i g)
      ]
    ]
