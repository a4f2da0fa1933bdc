-- ===== src/Service/Runnable.antt =====
-- service.go `canRun`: whether a service may run, by the flags of its neighbours.
use govisor.Common.{
  String, Bool, true, false, not, ◌&&◌, ◌||◌, List, [], ◌∷◌, str_eq, if◌then◌else◌,
}
use govisor.Common.Refs.{Ref}
use govisor.World.{World, Env, Flags, Groups, Links}
use govisor.World.Steps.{bump, set_reason}

-- `d.enabled && d.running && !d.stopping && !d.failed`
abbrev pub is_up : Flags → Bool
is_up f = f.enabled && f.running && not f.stopping && not f.failed

module _ (flags : Ref → Flags) where
  -- The loop over the providers of one dependency.
  unfoldable pub satisfied : List Ref → Bool
  satisfied [] = false
  satisfied (d ∷ ds) = if is_up (flags d) then true else satisfied ds

  -- The loop over the dependencies.
  unfoldable pub all_satisfied : Groups → Bool
  all_satisfied [] = true
  all_satisfied ((d, deps) ∷ gs) = if satisfied deps then all_satisfied gs else false

  unfoldable pub any_enabled : List Ref → Bool
  any_enabled [] = false
  any_enabled (c ∷ cs) = if (flags c).enabled then true else any_enabled cs

-- The result of `canRun`.
unfoldable pub runnable : (Ref → Flags) → Links → Flags → Bool
runnable flags l f =
    if f.stopping || not f.enabled
    then false
    else (if all_satisfied flags l.parents then not (any_enabled flags l.incompat) else false)

abbrev pub unmet : String
unmet = "Unmet dependency"

module _ (env : Env) where
  -- The first unsatisfied dependency is noted as the reason, once.
  unfoldable pub note_unmet : Ref → World → World
  note_unmet s w =
      if str_eq (w.info s).reason unmet then w else set_reason env s unmet (bump env s w)

  unfoldable pub can_run : Ref → World → Bool × World
  unfolding note_unmet runnable
  can_run s w =
      let f = w.flags s in
      let l = w.links s in
      if f.stopping || not f.enabled
      then (false, w)
      else (if all_satisfied w.flags l.parents
          then (not (any_enabled w.flags l.incompat), w)
          else (false, note_unmet s w))
