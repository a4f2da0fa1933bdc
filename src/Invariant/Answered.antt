-- ===== src/Invariant/Answered.antt =====
-- service.go: Enable, Disable, Restart, Clear and SetProperty hand out a serial number for what they
-- change.
use govisor.Common.{suc, not, ◌&&◌, str_eq, refl, arith, Bool-cases, Option-cases, inl, inr}
use govisor.Common.Refs.{Ref}
use govisor.World.{World, Env}
use govisor.Service.Run.{start}
use govisor.Service.Api.{
  first_enabled, refuse, admit, enable, retire, disable, begin_restart, resume, restart,
  note_cleared, forgive, clear,
}
use govisor.Invariant.Tracked.{Touched, Marked, Tracked-refl}
use govisor.Invariant.Outcomes.{
  Marked-Tracked_one, Tracks, tracks, Tracks-Touched, marked, touched, unseen, Tracks-Idle,
}
use govisor.Invariant.Serials.{stop-Tracks, start-Tracks}
use govisor.Invariant.Handed.{Tracks-number}

module _ (env : Env) where
  refuse-Marked : (s c : Ref) (w : World) → Marked 1 s w (refuse env s c w)
  unfolding refuse
  refuse-Marked s c w =
      marked s refl (λ r h. refl) (λ r h. ground (arith, h)) (λ r h. ground (arith, h))
        (ground arith) refl (ground arith)

  admit-Marked : (s : Ref) (w : World) → Marked 1 s w (admit env s w)
  unfolding admit
  admit-Marked s w =
      marked s refl (λ r h. refl) (λ r h. ground (arith, h)) (λ r h. ground (arith, h))
        (ground arith) refl (ground arith)

  retire-Marked : (s : Ref) (w : World) → Marked 1 s w (retire env s w)
  unfolding retire
  retire-Marked s w =
      marked s refl (λ r h. refl) (λ r h. ground (arith, h)) (λ r h. ground (arith, h))
        (ground arith) refl (ground arith)

  begin_restart-Marked : (s : Ref) (w : World) → Marked 1 s w (begin_restart env s w)
  unfolding begin_restart
  begin_restart-Marked s w =
      marked s refl (λ r h. refl) (λ r h. ground (arith, h)) (λ r h. ground (arith, h))
        (ground arith) refl (ground arith)

  resume-Touched : (s : Ref) (w : World) → Touched s w (resume env s w)
  unfolding resume
  resume-Touched s w =
      touched s refl (λ r h. refl) (λ r h. ground (arith, h)) (λ r h. ground (arith, h))
        (ground arith) refl (ground arith)

  forgive-Marked : (s : Ref) (w : World) → Marked 1 s w (forgive env s w)
  unfolding forgive note_cleared
  forgive-Marked s w =
      marked s (ground arith) (λ r h. ground arith) (λ r h. ground (arith, h))
        (λ r h. ground (arith, h)) (ground arith) (ground arith) (ground arith)

  pub enable-Tracks : (s : Ref) (w : World) → Tracks w (enable env s w).1
  unfolding enable
  enable-Tracks s w = elim (Bool-cases (w.links s).managed) [
    | inr e ↦ rw e (tracks 0 (Tracked-refl w))
    | inl e ↦ elim (Bool-cases (w.flags s).enabled) [
      | inl f ↦ rw (e, f) (tracks 0 (Tracked-refl w))
      | inr f ↦ elim (Option-cases (first_enabled w (env.order w.tick (w.links s).incompat))) [
        | inr (c, g) ↦
            rw (e, f, g)
              (Tracks-Idle (unseen (omega arith) refl refl refl refl refl) (
                tracks 1
                  (Marked-Tracked_one s (refuse-Marked s c (record w { tick = suc w.tick })))))
        | inl g ↦
            rw (e, f, g)
              (Tracks-Idle (unseen (omega arith) refl refl refl refl refl) (
                Tracks-number s (admit-Marked s (record w { tick = suc w.tick }))
                  (start-Tracks env s "Enabled service" _)))
      ]
    ]
  ]

  pub disable-Tracks : (s : Ref) (w : World) → Tracks w (disable env s w).1
  unfolding disable
  disable-Tracks s w = elim (Bool-cases (w.links s).managed) [
    | inr e ↦ rw e (tracks 0 (Tracked-refl w))
    | inl e ↦ elim (Bool-cases (not (w.flags s).enabled && str_eq (w.info s).reason "Disabled")) [
      | inl f ↦ rw (e, f) (tracks 0 (Tracked-refl w))
      | inr f ↦
          rw (e, f)
            (Tracks-number s (retire-Marked s w) (stop-Tracks env s "Disabled" (retire env s w)))
    ]
  ]

  pub restart-Tracks : (s : Ref) (w : World) → Tracks w (restart env s w).1
  unfolding restart
  restart-Tracks s w = elim (Bool-cases (w.links s).managed) [
    | inr e ↦ rw e (tracks 0 (Tracked-refl w))
    | inl e ↦ elim (Bool-cases (w.flags s).enabled) [
      | inr f ↦ rw (e, f) (tracks 0 (Tracked-refl w))
      | inl f ↦
          rw (e, f)
            (Tracks-Touched s (resume env s) (start env s "Restarting") (begin_restart-Marked s w)
              (stop-Tracks env s "Stopping for restart" (begin_restart env s w))
              (λ x. resume-Touched s x) (λ x. start-Tracks env s "Restarting" x))
    ]
  ]

  pub clear-Tracks : (s : Ref) (w : World) → Tracks w (clear env s w)
  unfolding clear
  clear-Tracks s w = elim (Bool-cases (w.links s).managed) [
    | inr e ↦ rw e (tracks 0 (Tracked-refl w))
    | inl e ↦ rw e (
        Tracks-number s (forgive-Marked s w) (start-Tracks env s "Cleared fault" (forgive env s w)))
  ]
