-- ===== src/Ui/Reach.antt =====
-- app.go, lpanel.go: the log panel in any sequence of events.
use govisor.Common.{
  ℕ, suc, String, Bool, true, false, Option, none, some, List, [], ◌∷◌, map, if◌then◌else◌, ◌≡◌,
  refl, sym, ap, ◌∙◌, subst, eq_iff, Option-cases, inl, inr, ◌⊎◌,
}
use govisor.Client.Http.{Failure}
use govisor.Ui.Events.{Item, Fault, LogInfo, Screen}
use govisor.Ui.LogView as LogView
use govisor.Ui.LogView.{LogPanel, log_line}
use govisor.Ui.App.{log_panel, items_loaded, Loop, App, new_app, get_item, get_log}
use govisor.Ui.Loop.{
  draw_at, loop_at, remove_at, expire_at, log_round, log_end, Event, key, drawn, run, refreshed,
  fetched, ended, expired, step, watched, reloaded, after_watch, after_load, assign_at,
}
use govisor.Ui.Logs.{
  Loops, no_loop, Loops-remove, Loops-expire, Loops-live, OfLog, no_log, of_log, queue_end, loading,
  logging, AppRight, post-Right, perform-Right,
}
use govisor.Ui.Bar.{set_title}
use govisor.Ui.Events.{item_of, fault_of}
use govisor.Ui.Logs.{Queued-append, watched-Queued, reloaded-Queued}
use govisor.Ui.Shown.{Well, well, Well-AppRight, handle_event-Well, draw_at-Right}

module _ (Of : String → LogInfo → Type 0) where
  -- What is fetched by a loop, for a post or behind it, is a log of its name.
  abbrev pub Honest : App → Event → Type 0
  Honest a e =
      ((k : ℕ) (l : LogInfo) (f : Option Failure) (p : Loop)
        → e ≡ fetched k (some l) f
        → loop_at a.loops k ≡ some p
        → Of p.name l)
      × ((n : String) (k : ℕ) (l : LogInfo) (f : Option Failure)
          → e ≡ reloaded n k (some l) f
          → Of n l)

  loaded : (n : String) (o : Option LogInfo) → ((l : LogInfo) → o ≡ some l → Of n l) → OfLog Of n o
  loaded n none h = no_log
  loaded n (some l) h = of_log (h l refl)

  Loops-if :
      (n : String) (b : Bool) (ls : List Loop) (k : ℕ)
      → Loops n ls
      → Loops n (if b then remove_at ls k else ls)
  Loops-if n true ls k h = Loops-remove ls k h
  Loops-if n false ls k h = h

  log_round-Right :
      (k : ℕ) (info : Option LogInfo) (e : Option Failure) (a : App)
      → Honest a (fetched k info e)
      → AppRight Of a
      → AppRight Of (log_round k info e a)
  unfolding log_round
  log_round-Right k info e a h r = elim (Option-cases (loop_at a.loops k)) [
    | inl f ↦ rw (f, log_round) r
    | inr (l, f) ↦
        let fine = loaded l.name info (λ i g. h.0 k i e l (ap (λ o. fetched k o e) g) f) in
        rw (f, log_round)
          (record {
            shown = r.shown;
            same_name = r.same_name;
            queued = Queued-append Of r.queued (logging fine queue_end);
            loops = Loops-if a.log_name l.cancelled a.loops k r.loops;
          })
  ]

  log_end-Right : (k : ℕ) (a : App) → AppRight Of a → AppRight Of (log_end k a)
  unfolding log_end
  log_end-Right k a r = elim (Option-cases (loop_at a.loops k)) [
    | inl f ↦ rw (f, log_end) r
    | inr (l, f) ↦
        rw (f, log_end)
          (record {
            shown = r.shown;
            same_name = r.same_name;
            queued = r.queued;
            loops = Loops-if a.log_name l.cancelled a.loops k r.loops;
          })
  ]

  step-Well :
      (screen : Screen) (e : Event) (a : App)
      → Honest a e
      → AppRight Of a
      → Well Of (step screen e a)
  unfolding step
  step-Well screen (key k) a h r = handle_event-Well Of k a r
  step-Well screen drawn a h r = well (draw_at-Right Of screen a.panel a r)
  step-Well screen run a h r = well (perform-Right Of a.posted a r.queued r)
  step-Well screen (refreshed is e) a h r =
      well (post-Right Of (items_loaded is e) a (loading queue_end) r)
  step-Well screen (fetched k info e) a h r = well (log_round-Right k info e a h r)
  step-Well screen (ended k) a h r = well (log_end-Right k a r)
  step-Well screen (expired k) a h r = well {a = record a { loops = expire_at a.loops k }} (record {
    shown = r.shown;
    same_name = r.same_name;
    queued = r.queued;
    loops = Loops-expire a.loops k r.loops;
  })
  step-Well screen (watched k e) a h r =
      well {a = record a { posted = assign_at k (after_watch e) a.posted }} (record {
        shown = r.shown;
        same_name = r.same_name;
        queued = watched-Queued Of k e a.posted r.queued;
        loops = r.loops;
      })
  step-Well screen (reloaded n k o e) a h r =
      let fine = loaded n o (λ i g. h.1 n k i e (ap (λ x. reloaded n k x e) g)) in
      well {a = record a { posted = assign_at k (after_load n o e) a.posted }} (record {
        shown = r.shown;
        same_name = r.same_name;
        queued = reloaded-Queued Of n k o e a.posted fine r.queued;
        loops = r.loops;
      })

  -- The states that the program comes to.
  pub data Reach (screen : Screen) (url : String) : App → Type 0 where
    started : Reach screen url (new_app screen url)
    stepped :
        {a b : App} (e : Event)
        → Reach screen url a
        → Honest a e
        → step screen e a ≡ some b
        → Reach screen url b

  Reach-Right : (screen : Screen) (url : String) (a : App) → Reach screen url a → AppRight Of a
  unfolding new_app LogView.new_log_panel LogView.update LogView.redraw
  Reach-Right screen url a started = record {
    shown = no_log;
    same_name = refl;
    queued = queue_end;
    loops = no_loop;
  }
  Reach-Right screen url b (stepped {a = a} e f h g) =
      Well-AppRight Of (subst (Well Of) g (step-Well screen e a h (Reach-Right screen url a f)))

  -- A log that is drawn.
  text-redraw :
      (screen : Screen) (n : String) (o : Option LogInfo) (s : String) (p : LogPanel)
      → OfLog Of n o
      → ((LogView.redraw screen o s p).text ≡ "" ∷ [])
        ⊎ ((l : LogInfo) × Of n l
            × ((LogView.redraw screen o s p).text ≡ map (log_line screen) l.records))
  unfolding LogView.redraw
  text-redraw screen n none s p h = inl refl
  text-redraw screen n (some l) s p (of_log h) = inr (l, h, refl)

  OfLog-if :
      (n : String) (b : Bool) (o : Option LogInfo)
      → OfLog Of n o
      → OfLog Of n (if b then none else o)
  OfLog-if n true o h = no_log
  OfLog-if n false o h = h

  text-update :
      (screen : Screen) (r : Fault ⊎ Item) (o : Option LogInfo) (e : Option Failure) (p : LogPanel)
      → OfLog Of p.name o
      → ((LogView.update screen r (o, e) p).text ≡ "" ∷ [])
        ⊎ ((l : LogInfo) × Of p.name l
            × ((LogView.update screen r (o, e) p).text ≡ map (log_line screen) l.records))
  unfolding LogView.update
  text-update screen r o e p h =
      let missing = LogView.is_missing (item_of r) p.name in
      text-redraw screen p.name (if missing then none else o) (LogView.told e (fault_of r))
        (record p { info = item_of r; panel = set_title (LogView.title_of p.name) p.panel })
        (OfLog-if p.name missing o h)

  get_log-Of : (a : App) → AppRight Of a → OfLog Of a.log.name (get_log a.log.name a).0
  unfolding get_log
  get_log-Of a r =
      rw ((eq_iff a.log_name a.log.name).1 (sym r.same_name))
        (subst (λ n. OfLog Of n a.log_info) (sym r.same_name) r.shown)

  -- Whatever keys, redraws, posted functions, rounds of the loops and assignments of theirs to
  -- what posted functions read come, in any order, the log panel, when it is drawn, shows no
  -- line or the lines of a log of the name that it was given; and at most one loop that loads
  -- logs was not cancelled, the last, and it loads for that name; if what a loop loads, for a
  -- post or behind it, is a log of the name that it was started with.
  pub drawn-Of :
      (screen : Screen) (url : String) (a : App)
      → Reach screen url a
      → (((draw_at screen log_panel a).log.text ≡ "" ∷ [])
          ⊎ ((l : LogInfo) × Of a.log.name l
              × ((draw_at screen log_panel a).log.text ≡ map (log_line screen) l.records)))
        × ((k : ℕ) (l : Loop)
            → loop_at a.loops k ≡ some l
            → l.cancelled ≡ false
            → (l.name ≡ a.log.name) × (loop_at a.loops (suc k) ≡ none))
  unfolding draw_at
  drawn-Of screen url a f =
      let r = Reach-Right screen url a f in
      (
        text-update screen (get_item a.log.name a) (get_log a.log.name a).0 (get_log a.log.name a).1
            a.log (get_log-Of a r),
        λ k l e g.
            let (n, last) = Loops-live a.loops k l r.loops e g in (n ∙ sym r.same_name, last),
      )
