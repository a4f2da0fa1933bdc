-- ===== src/Invariant/Handed.antt =====
-- service.go, manager.go: the calls hand out a serial number for what they change.
use govisor.Common.{
  suc, ◌+◌, true, ◌&&◌, str_eq, ◌≡◌, refl, ◌∷◌, arith, Bool-cases, Option-cases, inl, inr,
}
use govisor.Common.Refs.{Ref}
use govisor.World.{World, Env, Error, Info, Outcome, check_call, done, put, ◌>>=◌}
use govisor.Service.Run.{
  note_fault, faulted, healthy, check_service, self_heal, set_checking, set_fault,
}
use govisor.Manager.{watch, pass, end_pass, monitor_pass, notify}
use govisor.Invariant.Tracked.{Idle, Marked, Idle-Tracked, Tracked-refl, Tracked-trans}
use govisor.Invariant.Outcomes.{
  Marked-Tracked_one, Tracks, tracks, panics, runs_out, Tracks-bind, Tracks-for_each, marked,
  unseen, Tracks-Idle, Idle-trans,
}
use govisor.Invariant.Serials.{stop-Tracks, start-Tracks}

pub Tracks-number : (s : Ref) {v u : World} {o : Outcome} → Marked 1 s v u → Tracks u o → Tracks v o
Tracks-number s m panics = panics
Tracks-number s m runs_out = runs_out
Tracks-number s m (tracks k t) = tracks (1 + k) (Tracked-trans 1 k (Marked-Tracked_one s m) t)

Tracks-then :
    {v : World} {o : Outcome} (f : World → World)
    → Tracks v o
    → ((w : World) → Idle w (f w))
    → Tracks v (o >>= λ w. done (f w))
Tracks-then f t h = Tracks-bind {f = λ w. done (f w)} t (λ w. tracks 0 (Idle-Tracked (h w)))

module _ (env : Env) where
  note_fault-Marked : (s : Ref) (e : Error) (w : World) → Marked 1 s w (note_fault env s e w)
  unfolding note_fault
  note_fault-Marked s e w =
      marked s refl (λ r h. refl) (λ r h. ground (arith, h)) (λ r h. ground (arith, h))
        (ground arith) refl (ground arith)

  shown_alike :
      (w : World) (s : Ref) (i : Info)
      → i.reason ≡ (w.info s).reason
      → i.stamp ≡ (w.info s).stamp
      → i.serial ≡ (w.info s).serial
      → Idle w (record w { info = put w.info s i })
  shown_alike w s i a b c = record {
    mgr = refl;
    clock = omega arith;
    each = λ r. record {
      managed = refl;
      props = refl;
      flags = refl;
      reason = ground (arith, a);
      stamp = ground (arith, b);
      serial = ground (arith, c);
    };
  }

  faulted-Tracks : (s : Ref) (e : Error) (w : World) → Tracks w (faulted env s e w)
  unfolding faulted
  faulted-Tracks s e w = Tracks-number s (note_fault-Marked s e w) (
      Tracks-then (set_fault env s e) (stop-Tracks env s _ (note_fault env s e w))
        (λ x. shown_alike x s _ refl refl refl))

  healthy-Tracks : (s : Ref) (w : World) → Tracks w (done (healthy env s w))
  unfolding healthy
  healthy-Tracks s w = elim (Bool-cases (str_eq (w.info s).reason "Healthy")) [
    | inl e ↦ rw e (tracks 0 (Idle-Tracked (shown_alike w s _ refl refl refl)))
    | inr e ↦ rw e (
        tracks 1 (
          Marked-Tracked_one s (
            marked s refl (λ r h. refl) (λ r h. refl) (λ r h. ground (arith, h)) (ground arith) refl
              (ground arith))))
  ]

  -- The provider is asked.
  asked : Ref → World → World
  asked s w =
      let v = set_checking env s true w in
      record v { trace = check_call s ∷ v.trace; tick = suc v.tick }

  asked-Idle : (s : Ref) (w : World) → Idle w (asked s w)
  unfolding asked
  asked-Idle s w =
      Idle-trans (shown_alike w s (record (w.info s) { checking = true }) refl refl refl)
        (unseen (omega arith) refl refl refl refl refl)

  pub check_service-Tracks : (s : Ref) (w : World) → Tracks w (check_service env s w).1
  unfolding check_service asked
  check_service-Tracks s w = elim (Bool-cases (w.flags s).failed) [
    | inl e ↦ rw e (tracks 0 (Tracked-refl w))
    | inr e ↦ elim (Bool-cases (w.flags s).running) [
      | inr f ↦ rw (e, f) (tracks 0 (Tracked-refl w))
      | inl f ↦ elim (Option-cases (env.check_result w.tick s)) [
        | inl g ↦ rw (e, f, g) (Tracks-Idle (asked-Idle s w) (healthy-Tracks s (asked s w)))
        | inr (x, g) ↦ rw (e, f, g) (Tracks-Idle (asked-Idle s w) (faulted-Tracks s x (asked s w)))
      ]
    ]
  ]

  self_heal-Tracks : (s : Ref) (w : World) → Tracks w (self_heal env s w)
  unfolding self_heal
  self_heal-Tracks s w = elim (Bool-cases ((w.flags s).failed && (w.props s).restart)) [
    | inr e ↦ rw e (tracks 0 (Tracked-refl w))
    | inl e ↦
        rw e (Tracks-Idle (unseen (omega arith) refl refl refl refl refl) (start-Tracks env s _ _))
  ]

  watch-Tracks : (s : Ref) (w : World) → Tracks w (watch env s w)
  unfolding watch
  watch-Tracks s w = elim (Bool-cases (w.flags s).enabled) [
    | inr e ↦ rw e (tracks 0 (Tracked-refl w))
    | inl e ↦ elim (Option-cases (check_service env s w).0) [
      | inl f ↦ rw (e, f) (check_service-Tracks s w)
      | inr (x, f) ↦ rw (e, f) (Tracks-bind (check_service-Tracks s w) (λ y. self_heal-Tracks s y))
    ]
  ]

  pub notify-Tracks : (s : Ref) (w : World) → Tracks w (notify env s w)
  unfolding notify
  notify-Tracks s w = elim (Bool-cases (w.info s).checking) [
    | inl e ↦ rw e (tracks 0 (Tracked-refl w))
    | inr e ↦ rw e (watch-Tracks s w)
  ]

  pass-Tracks : (w : World) → Tracks w (pass env w)
  unfolding pass
  pass-Tracks w = elim (Bool-cases w.monitoring) [
    | inr e ↦ simp e (tracks 0 (Tracked-refl w))
    | inl e ↦ simp e (
        Tracks-Idle (unseen (omega arith) refl refl refl refl refl)
          (Tracks-for_each (watch env) (λ r x. watch-Tracks r x) _ _))
  ]

  end_pass-Idle : (w : World) → Idle w (end_pass env w).0
  unfolding end_pass
  end_pass-Idle w =
      unseen (ground arith) (ground arith) (ground arith) (ground arith) (ground arith)
        (ground arith)

  pub monitor_pass-Tracks : (w : World) → Tracks w (monitor_pass env w)
  unfolding monitor_pass
  monitor_pass-Tracks w =
      Tracks-then (λ x. (end_pass env x).0) (pass-Tracks w) (λ x. end_pass-Idle x)
