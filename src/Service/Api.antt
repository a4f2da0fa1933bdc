-- ===== src/Service/Api.antt =====
-- service.go: the methods of Service that clients call. Each returns its error, if any, first.
use govisor.Common.{
  String, Bool, true, false, not, ◌&&◌, Option, none, some, List, [], ◌∷◌, str_eq, if◌then◌else◌,
  str_append, suc,
}
use govisor.Common.Refs.{Ref}
use govisor.World.{World, Env, Error, no_manager, conflict, Outcome, done, ◌>>=◌}
use govisor.World.Steps.{bump, set_reason, set_flags, set_info, set_rate, log_line}
use govisor.Service.Run.{start, stop, check_service}

abbrev pub Reply : Type 0
Reply = Option Error × Outcome

-- `Enabled`, `Running` and `Failed`.
unfoldable pub enabled : Ref → World → Bool
enabled s w = if (w.links s).managed then (w.flags s).enabled else false

unfoldable pub running : Ref → World → Bool
running s w = if (w.links s).managed then (w.flags s).running && not (w.flags s).stopping else false

unfoldable pub failed : Ref → World → Bool
failed s w = if (w.links s).managed then (w.flags s).failed else false

-- The first of the services that is enabled.
unfoldable pub first_enabled : World → List Ref → Option Ref
first_enabled w [] = none
first_enabled w (c ∷ cs) = if (w.flags c).enabled then some c else first_enabled w cs

abbrev set_enabled : Ref → Bool → World → World
set_enabled s b w = set_flags s (record (w.flags s) { enabled = b }) w

abbrev set_starts_zero : Ref → World → World
set_starts_zero s w = set_rate s (record (w.rate s) { starts = 0 }) w

-- `s.err = nil`
abbrev set_err : Ref → World → World
set_err s w = set_info s (record (w.info s) { err = none }) w

module _ (env : Env) where
  abbrev conflict_line : String → String → String
  conflict_line s c = str_append (str_append (str_append "Cannot enable " s) ": conflicts with ") c

  -- `Enable` when `c` of the conflicting services is enabled.
  unfoldable pub refuse : Ref → Ref → World → World
  refuse s c w =
      set_reason env s "Disabled due to conflict"
        (bump env s (log_line s (conflict_line (w.props s).name (w.props c).name) w))

  -- `Enable` when none is, up to the start.
  unfoldable pub admit : Ref → World → World
  admit s w =
      let w1 = set_reason env s "Enabled" (bump env s w) in
      set_starts_zero s
        (set_enabled s true (log_line s (str_append "Enabling service " (w.props s).name) w1))

  unfoldable pub enable : Ref → World → Reply
  unfolding refuse admit first_enabled
  enable s w =
      if not (w.links s).managed
      then (some no_manager, done w)
      else (if (w.flags s).enabled
          then (none, done w)
          else (let w1 = record w { tick = suc w.tick } in
              elim (first_enabled w (env.order w.tick (w.links s).incompat)) [
                | some c ↦ (some conflict, done (refuse s c w1))
                | none ↦ (none, start env s "Enabled service" (admit s w1))
              ]))

  -- `Disable` up to the stop.
  unfoldable pub retire : Ref → World → World
  retire s w =
      let w1 = log_line s (str_append "Disabling service " (w.props s).name) (bump env s w) in
      set_err s (
        set_flags s (record (w.flags s) { enabled = false; failed = false })
          (set_reason env s "Disabled" w1))

  unfoldable pub disable : Ref → World → Reply
  unfolding retire
  disable s w =
      if not (w.links s).managed
      then (some no_manager, done w)
      else (if not (w.flags s).enabled && str_eq (w.info s).reason "Disabled"
          then (none, done w)
          else (none, stop env s "Disabled" (retire s w)))

  -- `Restart` up to the stop, and between the stop and the start.
  unfoldable pub begin_restart : Ref → World → World
  begin_restart s w =
      set_enabled s false
        (log_line s (str_append "Restarting service " (w.props s).name) (bump env s w))

  unfoldable pub resume : Ref → World → World
  resume s w = set_err s (
      set_flags s (record (w.flags s) { enabled = true; failed = false })
        (set_starts_zero s (set_reason env s "Restarting" w)))

  unfoldable pub restart : Ref → World → Reply
  unfolding begin_restart resume
  restart s w =
      if not (w.links s).managed
      then (some no_manager, done w)
      else (if not (w.flags s).enabled then (none, done w) else (
        none,
        stop env s "Stopping for restart" (begin_restart s w) >>= λ w1.
            start env s "Restarting" (resume s w1),
      ))

  -- `if s.failed { … }` of `Clear`.
  unfoldable pub note_cleared : Ref → World → World
  note_cleared s w =
      if (w.flags s).failed
      then log_line s (str_append "Clearing fault on " (w.props s).name)
          (set_reason env s "Cleared fault" w)
      else w

  -- `Clear` up to the start.
  unfoldable pub forgive : Ref → World → World
  unfolding note_cleared
  forgive s w =
      let w1 = note_cleared s (bump env s w) in
      set_err s (set_flags s (record (w1.flags s) { failed = false }) (set_starts_zero s w1))

  unfoldable pub clear : Ref → World → Outcome
  unfolding forgive
  clear s w = if not (w.links s).managed then done w else start env s "Cleared fault" (forgive s w)

  unfoldable pub check : Ref → World → Reply
  check s w = if not (w.links s).managed then (some no_manager, done w) else check_service env s w
