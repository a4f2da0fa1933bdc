-- ===== src/Invariant/Serials.antt =====
-- service.go: starts, stops and checks hand out a serial number for what they change.
use govisor.Common.{
  length, ℕ, zero, suc, ◌+◌, true, not, ◌&&◌, ◌||◌, String, str_eq, ◌≡◌, refl, none, some, arith,
  Bool-cases, Option-cases, inl, inr,
}
use govisor.Common.Refs.{Ref}
use govisor.World.{World, Env, Outcome, done}
use govisor.World.Steps.{bump, set_flags}
use govisor.Service.Runnable.{note_unmet, can_run, all_satisfied}
use govisor.Service.Limit.{
  Pace, free, limited, out_of_range, cool_down, last_start, too_quickly, record_start,
}
use govisor.Service.Run.{
  Attempt, skip, go, crash, start_failed, started, after_pace, attempt, each_child, called, launch,
  after_attempt, start_step, start_recurse, stopped, stop_child, stop_step, stop_recurse, start,
  stop,
}
use govisor.Invariant.Tracked.{
  Settled, Tracked, Idle, Marked, Idle-Tracked, Tracked-refl, Tracked-trans, Tracked-Touched,
}
use govisor.Invariant.Outcomes.{
  Settled-Marked, Marked-Tracked_one, Tracks, tracks, panics, runs_out, Tracks-bind,
  Tracks-for_each, Tracks-Marked, marked, touched, unseen, Tracks-Idle,
}

module _ (env : Env) where
  note_unmet-Tracks : (s : Ref) (w : World) → Tracks w (done (note_unmet env s w))
  unfolding note_unmet
  note_unmet-Tracks s w = elim (Bool-cases (str_eq (w.info s).reason "Unmet dependency")) [
    | inl e ↦ rw e (tracks 0 (Tracked-refl w))
    | inr e ↦ rw e (
        tracks 1 (
          Marked-Tracked_one s (
            marked s refl (λ r h. refl) (λ r h. refl) (λ r h. ground (arith, h)) (ground arith) refl
              (ground arith))))
  ]

  can_run-Tracks : (s : Ref) (w : World) → Tracks w (done (can_run env s w).1)
  unfolding can_run
  can_run-Tracks s w = elim (Bool-cases ((w.flags s).stopping || not (w.flags s).enabled)) [
    | inl e ↦ rw e (tracks 0 (Tracked-refl w))
    | inr e ↦ elim (Bool-cases (all_satisfied w.flags (w.links s).parents)) [
      | inl f ↦ rw (e, f) (tracks 0 (Tracked-refl w))
      | inr f ↦ rw (e, f) (note_unmet-Tracks s w)
    ]
  ]

  stopped-Marked : (s : Ref) (detail : String) (w : World) → Marked 1 s w (stopped env s detail w)
  unfolding stopped
  stopped-Marked s detail w =
      marked s refl (λ r h. refl) (λ r h. ground (arith, h)) (λ r h. ground (arith, h))
        (ground arith) refl (ground arith)

  each_child-Tracks :
      (f : Ref → World → Outcome)
      → ((r : Ref) (w : World) → Tracks w (f r w))
      → (s : Ref) (w : World) → Tracks w (each_child env f s w)
  unfolding each_child
  each_child-Tracks f h s w =
      Tracks-Idle (unseen (omega arith) refl refl refl refl refl) (Tracks-for_each f h _ _)

  stop_child-Tracks :
      (f : Ref → World → Outcome)
      → ((r : Ref) (w : World) → Tracks w (f r w))
      → (c : Ref) (w : World) → Tracks w (stop_child env f c w)
  unfolding stop_child
  stop_child-Tracks f h c w = elim (Bool-cases (can_run env c w).0) [
    | inl e ↦ rw e (can_run-Tracks c w)
    | inr e ↦ rw e (Tracks-bind (can_run-Tracks c w) (λ x. h c x))
  ]

  stop_step-Tracks :
      (f : Ref → World → Outcome)
      → ((r : Ref) (w : World) → Tracks w (f r w))
      → (s : Ref) (detail : String) (w : World) → Tracks w (stop_step env f s detail w)
  unfolding stop_step
  stop_step-Tracks f h s detail w =
      elim (Bool-cases ((w.flags s).running && not (w.flags s).stopping)) [
        | inr e ↦ rw e (tracks 0 (Tracked-refl w))
        | inl e ↦ rw e (
            Tracks-Marked s (stopped env s detail)
              (touched s refl (λ r h. refl) (λ r k. ground (arith, k)) (λ r k. refl) (ground arith)
                refl refl)
              (each_child-Tracks (stop_child env f) (stop_child-Tracks f h) s
                (set_flags s (record (w.flags s) { stopping = true }) w))
              (λ x. stopped-Marked s detail x))
      ]

  stop_recurse-Tracks :
      (n : ℕ) (s : Ref) (detail : String) (w : World) → Tracks w (stop_recurse env n s detail w)
  unfolding stop_recurse
  stop_recurse-Tracks zero s detail w = runs_out
  stop_recurse-Tracks (suc n) s detail w =
      stop_step-Tracks (λ c v. stop_recurse env n c "Unmet dependency" v)
        (λ c v. stop_recurse-Tracks n c "Unmet dependency" v) s detail w

  pub stop-Tracks : (s : Ref) (detail : String) (w : World) → Tracks w (stop env s detail w)
  unfolding stop
  stop-Tracks s detail w = stop_recurse-Tracks (suc (length w.services)) s detail w

  cool_down-Idle : (s : Ref) (w : World) → Idle w (cool_down env s w).1
  unfolding cool_down
  cool_down-Idle s w =
      unseen (ground arith) (ground arith) (ground arith) (ground arith) (ground arith)
        (ground arith)

  too_quickly-Idle : (s : Ref) (w : World) → Idle w (too_quickly env s w).1
  unfolding too_quickly last_start cool_down
  too_quickly-Idle s w =
      unseen (ground arith) (ground arith) (ground arith) (ground arith) (ground arith)
        (ground arith)

  record_start-Idle : (s : Ref) (w x : World) → record_start env s w ≡ some x → Idle w x
  unfolding record_start
  record_start-Idle s w x h =
      unseen (ground (arith, h)) (ground (arith, h)) (ground (arith, h)) (ground (arith, h))
        (ground (arith, h)) (ground (arith, h))

  -- What an attempt leaves: it is tracked, and a service that goes on has its number.
  data Attempted (s : Ref) (w : World) : Attempt → Type 0 where
    stays : {x : World} → Tracks w (done x) → Attempted s w (skip x)
    fails : Attempted s w crash
    goes : {x : World} (k : ℕ) → Tracked none k w x → Settled k w x s → Attempted s w (go x)

  pub bump-Marked : (s : Ref) (w : World) → Marked 1 s w (bump env s w)
  bump-Marked s w =
      marked s refl (λ r h. refl) (λ r h. refl) (λ r h. ground (arith, h)) (ground arith) refl
        (ground arith)

  after_pace-Attempted :
      (s : Ref) (p : Pace) (k : ℕ) (u w : World)
      → Tracked none k u w
      → Attempted s u (after_pace env s p w)
  unfolding after_pace
  after_pace-Attempted s out_of_range k u w t = fails
  after_pace-Attempted s limited k u w t = stays (tracks k t)
  after_pace-Attempted s free k u w t = elim (Option-cases (record_start env s w)) [
    | inl e ↦ rw (e, after_pace) fails
    | inr (x, e) ↦
        let t' = Tracked-trans k 0 t (Idle-Tracked (record_start-Idle s w x e)) in
        let m = bump-Marked s x in
        rw (e, after_pace)
          (goes (k + 0 + 1) (Tracked-trans (k + 0) 1 t' (Marked-Tracked_one s m))
            (Settled-Marked s (k + 0) t' m))
  ]

  attempt-Attempted : (s : Ref) (w : World) → Attempted s w (attempt env s w)
  unfolding attempt
  attempt-Attempted s w = elim (Bool-cases (w.flags s).running) [
    | inl e ↦ rw e (stays (tracks 0 (Tracked-refl w)))
    | inr e ↦ elim (Bool-cases (can_run env s w).0) [
      | inr f ↦ rw (e, f) (stays (can_run-Tracks s w))
      | inl f ↦ rw (e, f) (paced (can_run-Tracks s w))
    ]
  ]
    where
      paced :
          Tracks w (done (can_run env s w).1)
          → Attempted s w (
              after_pace env s
                (too_quickly env s (can_run env s w).1).0
                (too_quickly env s (can_run env s w).1).1)
      paced (tracks k t) =
          after_pace-Attempted s _ (k + 0) w _
            (Tracked-trans k 0 t (Idle-Tracked (too_quickly-Idle s (can_run env s w).1)))

  launch-Tracks :
      (f : Ref → World → Outcome)
      → ((r : Ref) (w : World) → Tracks w (f r w))
      → (s : Ref) (detail : String) (k : ℕ) (u w : World) → Tracked none k u w
      → Settled k u w s
      → Tracks u (launch env f s detail w)
  unfolding launch start_failed started
  launch-Tracks f h s detail k u w t c = elim (Option-cases (env.start_result w.tick s)) [
    | inr (e, g) ↦
        rw (g, launch)
          (tracks k (
            Tracked-Touched s k t c (
              touched s refl (λ r h. refl) (λ r q. ground (arith, q)) (λ r q. ground (arith, q))
                (ground arith) refl (ground arith))))
    | inl g ↦
        rw (g, launch)
          (Tracks-bind {o = done (started env s detail (called env s w))} {f = each_child env f s}
            (tracks k (
              Tracked-Touched s k t c (
                touched s refl (λ r h. refl) (λ r q. ground (arith, q)) (λ r q. ground (arith, q))
                  (ground arith) refl (ground arith))))
            (λ x. each_child-Tracks f h s x))
  ]

  start_step-Tracks :
      (f : Ref → World → Outcome)
      → ((r : Ref) (w : World) → Tracks w (f r w))
      → (s : Ref) (detail : String) (w : World) → Tracks w (start_step env f s detail w)
  unfolding start_step after_attempt
  start_step-Tracks f h s detail w = of (attempt env s w) (attempt-Attempted s w)
    where
      of : (a : Attempt) → Attempted s w a → Tracks w (after_attempt env f s detail a)
      of _ (stays t) = t
      of _ fails = panics
      of _ (goes k t c) = launch-Tracks f h s detail k w _ t c

  start_recurse-Tracks :
      (n : ℕ) (s : Ref) (detail : String) (w : World) → Tracks w (start_recurse env n s detail w)
  unfolding start_recurse
  start_recurse-Tracks zero s detail w = runs_out
  start_recurse-Tracks (suc n) s detail w =
      start_step-Tracks (λ c v. start_recurse env n c "Dependency running" v)
        (λ c v. start_recurse-Tracks n c "Dependency running" v) s detail w

  pub start-Tracks : (s : Ref) (detail : String) (w : World) → Tracks w (start env s detail w)
  unfolding start
  start-Tracks s detail w = start_recurse-Tracks (suc (length w.services)) s detail w
