-- ===== src/Ui/Logs.antt =====
-- app.go, lpanel.go: the log that is shown, and the loops that load it.
use govisor.Common.{
  ℕ, zero, suc, String, str_eq, true, false, Option, none, some, List, [], ◌∷◌, ◌++◌, map, ◌≡◌,
  refl, sym, ap, ◌∙◌, subst, arith, eq_iff, Bool-cases, inl, inr,
}
use govisor.Client.Http.{Failure}
use govisor.Ui.Events.{
  Act, show_main, show_help, show_auth, show_info, show_log, quit, enable, disable, clear, restart,
  login, redraw, Item, LogInfo,
}
use govisor.Ui.LogView as LogView
use govisor.Ui.LogView.{LogPanel, log_line}
use govisor.Ui.App.{
  Widget, info_panel, help_panel, auth_panel, main_panel, Posted, show, items_loaded, log_loaded,
  Loop, App, post, cancel, show_widget, open_log, open_info, open_auth, set_user_password, act,
  perform,
}
use govisor.Ui.Loop.{
  after_watch, after_load, assign_at, acts, loop_at, remove_at, expire_at, run_posted,
}

-- All loops but the last are cancelled, and the last is for this name.
pub data Loops (n : String) : List Loop → Type 0 where
  no_loop : Loops n []
  current : {l : Loop} → l.name ≡ n → Loops n (l ∷ [])
  stopped : {l : Loop} {ls : List Loop} → l.cancelled ≡ true → Loops n ls → Loops n (l ∷ ls)

Loops-open :
    (n : String) (ls : List Loop)
    → Loops n (map cancel ls ++ record { name = n; cancelled = false } ∷ [])
Loops-open n [] = current refl
Loops-open n (l ∷ ls) = stopped refl (Loops-open n ls)

pub Loops-remove : {n : String} (ls : List Loop) (k : ℕ) → Loops n ls → Loops n (remove_at ls k)
Loops-remove [] k h = h
Loops-remove (l ∷ []) zero (current e) = no_loop
Loops-remove (l ∷ []) (suc k) (current e) = current e
Loops-remove (l ∷ ls) zero (stopped e h) = h
Loops-remove (l ∷ ls) (suc k) (stopped e h) = stopped e (Loops-remove ls k h)

pub Loops-expire : {n : String} (ls : List Loop) (k : ℕ) → Loops n ls → Loops n (expire_at ls k)
Loops-expire [] k h = h
Loops-expire (l ∷ []) zero (current e) = stopped refl no_loop
Loops-expire (l ∷ []) (suc k) (current e) = current e
Loops-expire (l ∷ ls) zero (stopped e h) = stopped refl h
Loops-expire (l ∷ ls) (suc k) (stopped e h) = stopped e (Loops-expire ls k h)

same_loop : (m l : Loop) → some m ≡ some l → m ≡ l
same_loop m l e = ap (λ o. elim o [ none ↦ m | some x ↦ x ]) e

-- A loop that is not cancelled is the last, and for this name.
pub Loops-live :
    {n : String} (ls : List Loop) (k : ℕ) (l : Loop)
    → Loops n ls
    → loop_at ls k ≡ some l
    → l.cancelled ≡ false
    → (l.name ≡ n) × (loop_at ls (suc k) ≡ none)
Loops-live [] k l no_loop e f = ground (arith, e)
Loops-live (m ∷ []) zero l (current g) e f = (ap (λ x. x.name) (sym (same_loop m l e)) ∙ g, refl)
Loops-live (m ∷ []) (suc k) l (current g) e f = ground (arith, e)
Loops-live (m ∷ ls) zero l (stopped g h) e f =
    ground (arith, g, f, ap (λ x. x.cancelled) (same_loop m l e))
Loops-live (m ∷ ls) (suc k) l (stopped g h) e f = Loops-live ls k l h e f

module _ (Of : String → LogInfo → Type 0) where
  -- No log, or one of this name.
  pub data OfLog (n : String) : Option LogInfo → Type 0 where
    no_log : OfLog n none
    of_log : {l : LogInfo} → Of n l → OfLog n (some l)

  pub data Queued : List Posted → Type 0 where
    queue_end : Queued []
    showing : {w : Widget} {ps : List Posted} → Queued ps → Queued (show w ∷ ps)
    loading :
        {is : List Item} {e : Option (ℕ × Failure)} {ps : List Posted}
        → Queued ps
        → Queued (items_loaded is e ∷ ps)
    logging :
        {n : String} {o : Option LogInfo} {e : Option Failure} {ps : List Posted}
        → OfLog n o
        → Queued ps
        → Queued (log_loaded n o e ∷ ps)

  pub Queued-append : {ps qs : List Posted} → Queued ps → Queued qs → Queued (ps ++ qs)
  Queued-append queue_end h = h
  Queued-append (showing g) h = showing (Queued-append g h)
  Queued-append (loading g) h = loading (Queued-append g h)
  Queued-append (logging o g) h = logging o (Queued-append g h)

  first : {p : Posted} {ps : List Posted} → Queued (p ∷ ps) → Queued (p ∷ [])
  first (showing q) = showing queue_end
  first (loading q) = loading queue_end
  first (logging o q) = logging o queue_end

  rest : {p : Posted} {ps : List Posted} → Queued (p ∷ ps) → Queued ps
  rest (showing q) = q
  rest (loading q) = q
  rest (logging o q) = q

  after_watch-Queued :
      (e : Option (ℕ × Failure)) (p : Posted) → Queued (p ∷ []) → Queued (after_watch e p ∷ [])
  unfolding after_watch
  after_watch-Queued e (items_loaded is f) q = loading queue_end
  after_watch-Queued e (show w) q = q
  after_watch-Queued e (log_loaded n o f) q = q

  after_load-Queued :
      (n : String) (o : Option LogInfo) (e : Option Failure)
      → OfLog n o
      → (p : Posted) → Queued (p ∷ [])
      → Queued (after_load n o e p ∷ [])
  unfolding after_load
  after_load-Queued n o e h (items_loaded is f) q = q
  after_load-Queued n o e h (show w) q = q
  after_load-Queued n o e h (log_loaded m x f) q = elim (Bool-cases (str_eq m n)) [
    | inl same ↦ rw same (logging (subst (λ k. OfLog k o) (sym ((eq_iff m n).0 same)) h) queue_end)
    | inr other ↦ rw other q
  ]

  assign_at-Queued :
      (k : ℕ) (f : Posted → Posted)
      → ((p : Posted) → Queued (p ∷ []) → Queued (f p ∷ []))
      → (ps : List Posted) → Queued ps
      → Queued (assign_at k f ps)
  unfolding assign_at
  assign_at-Queued k f h [] q = queue_end
  assign_at-Queued zero f h (p ∷ ps) q = Queued-append (h p (first q)) (rest q)
  assign_at-Queued (suc k) f h (p ∷ ps) q =
      Queued-append (first q) (assign_at-Queued k f h ps (rest q))

  pub watched-Queued :
      (k : ℕ) (e : Option (ℕ × Failure)) (ps : List Posted)
      → Queued ps
      → Queued (assign_at k (after_watch e) ps)
  watched-Queued k e ps q = assign_at-Queued k (after_watch e) (after_watch-Queued e) ps q

  pub reloaded-Queued :
      (n : String) (k : ℕ) (o : Option LogInfo) (e : Option Failure) (ps : List Posted)
      → OfLog n o
      → Queued ps
      → Queued (assign_at k (after_load n o e) ps)
  reloaded-Queued n k o e ps h q =
      assign_at-Queued k (after_load n o e) (after_load-Queued n o e h) ps q

  -- The log that is kept and those that are posted are of their names, the log panel asks for the one
  -- that is kept, and the loops are for it.
  pub record Right (n : String) (o : Option LogInfo) (asked : String) (ps : List Posted)
      (ls : List Loop) : Type 0 where
    pub shown : OfLog n o
    pub same_name : asked ≡ n
    pub queued : Queued ps
    pub loops : Loops n ls

  abbrev pub AppRight : App → Type 0
  AppRight a = Right a.log_name a.log_info a.log.name a.posted a.loops

  pub post-Right : (p : Posted) (a : App) → Queued (p ∷ []) → AppRight a → AppRight (post p a)
  post-Right p a q r = record {
    shown = r.shown;
    same_name = r.same_name;
    queued = Queued-append r.queued q;
    loops = r.loops;
  }

  open_log-Right : (n : String) (a : App) → AppRight a → AppRight (open_log n a)
  unfolding open_log show_widget LogView.set_name
  open_log-Right n a r = record {
    shown = no_log;
    same_name = refl;
    queued = Queued-append r.queued (showing queue_end);
    loops = Loops-open n a.loops;
  }

  pub act-Right : (x : Act) (a : App) → AppRight a → AppRight (act x a)
  unfolding act show_widget open_info open_auth set_user_password
  act-Right show_main a r = post-Right (show main_panel) a (showing queue_end) r
  act-Right show_help a r = post-Right (show help_panel) a (showing queue_end) r
  act-Right show_auth a r = post-Right (show auth_panel) a (showing queue_end) r
  act-Right (show_info n) a r = post-Right (show info_panel) a (showing queue_end) r
  act-Right (show_log n) a r = open_log-Right n a r
  act-Right (login user pass) a r = r
  act-Right (enable n) a r = r
  act-Right (disable n) a r = r
  act-Right (clear n) a r = r
  act-Right (restart n) a r = r
  act-Right quit a r = r
  act-Right redraw a r = r

  pub acts-Right : (xs : List Act) (a : App) → AppRight a → AppRight (acts xs a)
  unfolding acts
  acts-Right [] a r = r
  acts-Right (x ∷ xs) a r = acts-Right xs (act x a) (act-Right x a r)

  pub perform-Right :
      (ps : List Posted) (a : App) → Queued ps → AppRight a → AppRight (run_posted ps a)
  unfolding run_posted perform
  perform-Right [] a q r = r
  perform-Right (show w ∷ ps) a (showing q) r = record {
    shown = r.shown;
    same_name = r.same_name;
    queued = q;
    loops = r.loops;
  }
  perform-Right (items_loaded is e ∷ ps) a (loading q) r = record {
    shown = r.shown;
    same_name = r.same_name;
    queued = q;
    loops = r.loops;
  }
  perform-Right (log_loaded n o e ∷ ps) a (logging k q) r =
      elim (Bool-cases (str_eq a.log_name n)) [
        | inl f ↦
            rw (f, perform)
              (record {
                shown = subst (λ m. OfLog m o) (sym ((eq_iff a.log_name n).0 f)) k;
                same_name = r.same_name;
                queued = q;
                loops = r.loops;
              })
        | inr f ↦
            rw (f, perform)
              (record { shown = r.shown; same_name = r.same_name; queued = q; loops = r.loops })
      ]
