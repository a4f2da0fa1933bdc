-- ===== src/Ui/Main/Loads.antt =====
-- mpanel.go `update`: what a load that succeeds leaves behind.
use govisor.Common.{
  ℕ, suc, ◌+◌, String, str_eq, Bool, true, false, Option, none, some, List, [], ◌∷◌, if◌then◌else◌,
  length, get_elem?, ◌≡◌, refl, ap, ◌∙◌, subst, arith, length-append, Option-cases, inl, inr,
}
use govisor.World.{pos}
use govisor.Server.Http.{ServiceInfo}
use govisor.Ui.Bar.{Style, normal, good, warn, bad}
use govisor.Ui.Events.{Item, Screen}
use govisor.Ui.Main.{MainPanel}
use govisor.Ui.Main.Load.{
  find_from, reselect, preserve, count, style_of, add_line, put_line, add_lines, reset, tell,
  update,
}
use govisor.Ui.Main.Fits.{Stands, nowhere, at_cursor, Fits}

-- What is found is a service of the list, of that name, at the place that is told.
pub data Found (n : String) (k : ℕ) (items : List Item) : Option (ℕ × Item) → Type 0 where
  missing : Found n k items none
  found :
      {j : ℕ} {i : Item} (y : ℕ)
      → j ≡ k + y
      → get_elem? items y ≡ some i
      → str_eq i.info.name n ≡ true
      → Found n k items (some (j, i))

find_from-Found : (n : String) (k : ℕ) (is : List Item) → Found n k is (find_from n k is)
unfolding find_from
find_from-Found n k [] = missing
find_from-Found n k (x ∷ is) = among (find_from n (suc k) is) (find_from-Found n (suc k) is)
  where
    here :
        (b : Bool) → str_eq x.info.name n ≡ b → Found n k (x ∷ is) (if b then some (k, x) else none)
    here true e = found 0 (omega arith) refl e
    here false e = missing

    among :
        (o : Option (ℕ × Item))
        → Found n (suc k) is o
        → Found n k
            (x ∷ is)
            (elim o [ some r ↦ some r | none ↦ if str_eq x.info.name n then some (k, x) else none ])
    among none f = here (str_eq x.info.name n) refl
    among (some (j, i)) (found y e e' e'') = found (suc y) (omega (arith, e)) e' e''

reselect-Stands :
    (n : String) (o : Option (ℕ × Item)) (m : MainPanel)
    → Found n 0 m.items o
    → Stands m.items (reselect o m).selected (reselect o m).cury
reselect-Stands n none m f = nowhere
reselect-Stands n (some (j, i)) m (found y e e' e'') =
    subst (λ k. Stands m.items (some i) (pos k)) (omega (arith, e)) (at_cursor e')

preserve-Stands :
    (o : Option Item) (m : MainPanel)
    → m.selected ≡ o
    → Stands m.items (preserve o m).selected (preserve o m).cury
unfolding preserve
preserve-Stands none m e = rw e nowhere
preserve-Stands (some s) m e =
    reselect-Stands s.info.name _ m (find_from-Found s.info.name 0 m.items)

preserve-items : (o : Option Item) (m : MainPanel) → (preserve o m).items ≡ m.items
unfolding preserve
preserve-items none m = refl
preserve-items (some s) m = elim (Option-cases (find_from s.info.name 0 m.items)) [
  | inl e ↦ rw e refl
  | inr (p, e) ↦ rw e refl
]

-- The loop grows the lines, the styles and the height, and leaves the services and the cursor.
pub record Grown (m n : MainPanel) (k : ℕ) : Type 0 where
  pub lines_grow : length n.lines ≡ length m.lines + k
  pub styles_grow : length n.styles ≡ length m.styles + k
  pub height_grows : n.height ≡ m.height + k
  pub same_items : n.items ≡ m.items
  pub same_selected : n.selected ≡ m.selected
  pub same_cury : n.cury ≡ m.cury

still :
    {m n : MainPanel}
    → n.lines ≡ m.lines
    → n.styles ≡ m.styles
    → n.height ≡ m.height
    → n.items ≡ m.items
    → n.selected ≡ m.selected
    → n.cury ≡ m.cury
    → Grown m n 0
still a b c d e f = record {
  lines_grow = omega (arith, ap length a);
  styles_grow = omega (arith, ap length b);
  height_grows = omega (arith, c);
  same_items = d;
  same_selected = e;
  same_cury = f;
}

count-Grown : (st : Style) (m : MainPanel) → Grown m (count st m) 0
count-Grown normal m = still refl refl refl refl refl refl
count-Grown good m = still refl refl refl refl refl refl
count-Grown warn m = still refl refl refl refl refl refl
count-Grown bad m = still refl refl refl refl refl refl

Grown-trans : {a b c : MainPanel} (j k : ℕ) → Grown a b j → Grown b c k → Grown a c (j + k)
Grown-trans j k f g = record {
  lines_grow = omega (arith, f.lines_grow, g.lines_grow);
  styles_grow = omega (arith, f.styles_grow, g.styles_grow);
  height_grows = omega (arith, f.height_grows, g.height_grows);
  same_items = g.same_items ∙ f.same_items;
  same_selected = g.same_selected ∙ f.same_selected;
  same_cury = g.same_cury ∙ f.same_cury;
}

add_line-Grown :
    (screen : Screen) (s : ServiceInfo) (m : MainPanel) → Grown m (add_line screen s m) 1
unfolding add_line put_line
add_line-Grown screen s m =
    Grown-trans 1 0
      (record {
        lines_grow = length-append m.lines _;
        styles_grow = length-append m.styles _;
        height_grows = refl;
        same_items = refl;
        same_selected = refl;
        same_cury = refl;
      })
      (count-Grown (style_of s) (put_line screen s m))

add_lines-Grown :
    (screen : Screen) (is : List Item) (m : MainPanel) → Grown m (add_lines screen is m) (length is)
unfolding add_lines
add_lines-Grown screen [] m = still refl refl refl refl refl refl
add_lines-Grown screen (i ∷ is) m =
    subst (Grown m (add_lines screen (i ∷ is) m)) (omega arith)
      (Grown-trans 1 (length is) (add_line-Grown screen i.info m) (add_lines-Grown screen is _))

-- A load that succeeds makes any panel fit.
pub update-Fits :
    (screen : Screen) (is : List Item) (m : MainPanel) → Fits (update screen is none m).0
unfolding update tell
update-Fits screen is m =
    let held : MainPanel = record m { items = is } in
    let n = preserve m.selected held in
    let g = add_lines-Grown screen is (reset n) in
    let kept = preserve-items m.selected held in
    record {
      sized = record {
        lines_fit = omega (arith, g.lines_grow, ap length (g.same_items ∙ kept));
        styles_fit = omega (arith, g.styles_grow, ap length (g.same_items ∙ kept));
        height_fits = omega (arith, g.height_grows, ap length (g.same_items ∙ kept));
      };
      standing =
          rw (g.same_items, g.same_selected, g.same_cury, kept)
            (preserve-Stands m.selected held refl);
    }
