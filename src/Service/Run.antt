-- ===== src/Service/Run.antt =====
-- service.go `startRecurse`, `stopRecurse`, `checkService` and `selfHeal`.
use govisor.Common.{
  ℕ, zero, suc, String, Bool, true, false, ◌&&◌, not, Option, none, some, ◌∷◌, str_eq,
  if◌then◌else◌, length, str_append,
}
use govisor.Common.Refs.{Ref}
use govisor.World.{
  World, Env, Error, text, not_running, Outcome, done, panic, spent, ◌>>=◌, for_each, start_call,
  stop_call, check_call,
}
use govisor.World.Steps.{bump, set_reason, set_flags, set_info, log_line}
use govisor.Service.Runnable.{can_run}
use govisor.Service.Limit.{Pace, free, limited, out_of_range, too_quickly, record_start}

-- `startRecurse` before the provider is called.
pub data Attempt : Type 0 where
  skip go : World → Attempt
  crash : Attempt

module _ (env : Env) where
  -- What `startRecurse` does once the provider has answered.
  unfoldable pub start_failed : Ref → Error → World → World
  start_failed s e w =
      let w1 =
        log_line s
          (str_append (str_append (str_append "Failed to start " (w.props s).name) ": ") (text e))
          w in
      let w2 = set_reason env s (str_append "Failed start:" (text e)) w1 in
      let w3 = set_info s (record (w2.info s) { err = some e }) w2 in
      set_flags s (record (w3.flags s) { failed = true }) w3

  unfoldable pub started : Ref → String → World → World
  started s detail w =
      let w1 = set_reason env s "Started" w in
      let w2 =
        log_line s (str_append (str_append (str_append "Started " (w.props s).name) ": ") detail)
          w1 in
      set_flags s (record (w2.flags s) { running = true; failed = false }) w2

  -- `startRecurse` from the answer of `tooQuickly` to the call of the provider.
  unfoldable pub after_pace : Ref → Pace → World → Attempt
  after_pace s out_of_range w = crash
  after_pace s limited w = skip w
  after_pace s free w = elim (record_start env s w) [ none ↦ crash | some w' ↦ go (bump env s w') ]

  -- `startRecurse` before it calls the provider: it returns early, or goes on, or panics.
  unfoldable pub attempt : Ref → World → Attempt
  unfolding after_pace
  attempt s w =
      if (w.flags s).running
      then skip w
      else (let (ok, w1) = can_run env s w in
          if ok then (let (pace, w2) = too_quickly env s w1 in after_pace s pace w2) else skip w1)

  -- `for child := range s.children { f(child) }`
  unfoldable pub each_child : (Ref → World → Outcome) → Ref → World → Outcome
  each_child f s w =
      for_each f (env.order w.tick (w.links s).children) (record w { tick = suc w.tick })

  -- `s.prov.Start()`: the call is an event, and its answer is the environment's.
  abbrev pub called : Ref → World → World
  called s w = record w { trace = start_call s ∷ w.trace; tick = suc w.tick }

  -- The body of `startRecurse` from the call of the provider, with the recursive call as `rec`.
  unfoldable pub launch : (Ref → World → Outcome) → Ref → String → World → Outcome
  unfolding each_child start_failed started
  launch rec s detail w = elim (env.start_result w.tick s) [
    | some e ↦ done (start_failed s e (called s w))
    | none ↦ each_child rec s (started s detail (called s w))
  ]

  unfoldable pub after_attempt : (Ref → World → Outcome) → Ref → String → Attempt → Outcome
  unfolding launch
  after_attempt rec s detail (skip w) = done w
  after_attempt rec s detail crash = panic
  after_attempt rec s detail (go w) = launch rec s detail w

  -- The body of `startRecurse`, with the recursive call as `rec`.
  unfoldable pub start_step : (Ref → World → Outcome) → Ref → String → World → Outcome
  unfolding attempt after_attempt
  start_step rec s detail w = after_attempt rec s detail (attempt s w)

  unfoldable pub start_recurse : ℕ → Ref → String → World → Outcome
  unfolding start_step
  start_recurse zero s detail w = spent
  start_recurse (suc n) s detail w =
      start_step (λ c v. start_recurse n c "Dependency running" v) s detail w

  -- The end of `stopRecurse`, from `s.serial = s.mgr.bumpSerial()`.
  unfoldable pub stopped : Ref → String → World → World
  stopped s detail w =
      let w1 = bump env s w in
      let w2 = set_reason env s detail (record w1 { trace = stop_call s ∷ w1.trace }) in
      let line = str_append (str_append (str_append "Stopped " (w.props s).name) ": ") detail in
      let w3 = log_line s line w2 in
      set_flags s (record (w3.flags s) { running = false; stopping = false }) w3

  -- The loop body of `stopRecurse`, with the recursive call as `stop`.
  unfoldable pub stop_child : (Ref → World → Outcome) → Ref → World → Outcome
  stop_child stop c w = let (ok, w1) = can_run env c w in if ok then done w1 else stop c w1

  -- The body of `stopRecurse`, with the recursive call as `rec`.
  unfoldable pub stop_step : (Ref → World → Outcome) → Ref → String → World → Outcome
  unfolding each_child stopped stop_child
  stop_step rec s detail w =
      if (w.flags s).running && not (w.flags s).stopping
      then (each_child (stop_child rec) s (set_flags s (record (w.flags s) { stopping = true }) w)
          >>= λ w1. done (stopped s detail w1))
      else done w

  unfoldable pub stop_recurse : ℕ → Ref → String → World → Outcome
  unfolding stop_step
  stop_recurse zero s detail w = spent
  stop_recurse (suc n) s detail w =
      stop_step (λ c v. stop_recurse n c "Unmet dependency" v) s detail w

  abbrev fuel : World → ℕ
  fuel w = suc (length w.services)

  -- The calls from outside, with a bound on the depth: one more than there are services.
  unfoldable pub start : Ref → String → World → Outcome
  unfolding start_recurse
  start s detail w = start_recurse (fuel w) s detail w

  unfoldable pub stop : Ref → String → World → Outcome
  unfolding stop_recurse
  stop s detail w = stop_recurse (fuel w) s detail w

  abbrev pub set_checking : Ref → Bool → World → World
  set_checking s b w = set_info s (record (w.info s) { checking = b }) w

  -- `s.err = e; s.checking = false`
  abbrev pub set_fault : Ref → Error → World → World
  set_fault s e w = set_info s (record (w.info s) { err = some e; checking = false }) w

  abbrev fault_line : String → String → String
  fault_line name e = str_append (str_append (str_append "Service " name) " faulted: ") e

  -- `checkService` when the provider reports an error, up to the stop.
  unfoldable pub note_fault : Ref → Error → World → World
  note_fault s e w =
      let w1 = log_line s (fault_line (w.props s).name (text e)) (bump env s w) in
      set_flags s (record (w1.flags s) { failed = true }) w1

  unfoldable pub faulted : Ref → Error → World → Outcome
  unfolding stop note_fault
  faulted s e w =
      stop s (str_append "Faulted: " (text e)) (note_fault s e w) >>= λ w1. done (set_fault s e w1)

  -- `checkService` when the provider reports none.
  unfoldable pub healthy : Ref → World → World
  healthy s w =
      let w1 =
        if str_eq (w.info s).reason "Healthy"
        then w
        else (let v = bump env s w in
            set_reason env s "Healthy" (log_line s "Service healthy" v)) in
      set_checking s false w1

  -- The error returned comes first.
  unfoldable pub check_service : Ref → World → Option Error × Outcome
  unfolding faulted healthy
  check_service s w =
      if (w.flags s).failed
      then ((w.info s).err, done w)
      else (if (w.flags s).running
          then (let w1 = set_checking s true w in
              let w2 = record w1 { trace = check_call s ∷ w1.trace; tick = suc w1.tick } in
              elim (env.check_result w1.tick s) [
                | some e ↦ (some e, faulted s e w2)
                | none ↦ (none, done (healthy s w2))
              ])
          else (some not_running, done w))

  unfoldable pub self_heal : Ref → World → Outcome
  unfolding start
  self_heal s w =
      if (w.flags s).failed && (w.props s).restart
      then start s "Self-healing attempt" (log_line s "Attempting self-healing" w)
      else done w
