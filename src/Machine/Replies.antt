-- ===== src/Machine/Replies.antt =====
-- service.go: what `Enable`, `Disable` and `Check` answer, and what they leave of the service.
use govisor.Common.{
  ℕ, suc, true, false, not, ◌&&◌, ◌≡◌, refl, sym, ◌∙◌, Option, none, some, arith, Bool-cases,
  Option-cases, inl, inr, str_eq, ◌==◌, ==_iff,
}
use govisor.Common.Refs.{Ref, contains}
use govisor.World.{World, Env, Error, conflict}
use govisor.Service.Runnable.{all_satisfied}
use govisor.Service.Run.{check_service, faulted, note_fault}
use govisor.Service.Api.{first_enabled, refuse, admit, enable, disable, retire}
use govisor.Invariant.Post.{Ensures, ensured, Ensures-mono, Ensures-bind}
use govisor.Invariant.Neighbours.{view, runnable_parts, runnable_intro, all_satisfied_mono}
use govisor.Invariant.Frames.{Fair}
use govisor.Invariant.Quiet.{Inv, stop-Ended}
use govisor.Invariant.Switch.{
  first_enabled-none, first_enabled-some, any_enabled-false, readied, readied-Inv,
  readied-Exclusive, weakened-Ending,
}
use govisor.Invariant.Calls.{polled, recounted-Inv}
use govisor.Invariant.Runs.{start-Runs}

module _ (env : Env) (fair : Fair env) where
  -- The loop of `Enable` over the services that `s` conflicts with.
  abbrev blocker : Ref → World → Option Ref
  blocker s w =
      first_enabled (record w { tick = suc w.tick }) (env.order w.tick (w.links s).incompat)

  no_blocker :
      (s : Ref) (w : World)
      → ((c : Ref) → contains c (w.links s).incompat ≡ true → (w.flags c).enabled ≡ false)
      → blocker s w ≡ none
  no_blocker s w free = elim (Option-cases (blocker s w)) [
    | inl e ↦ e
    | inr (c, e) ↦
        let (m, on) = first_enabled-some (record w { tick = suc w.tick }) _ c e in
        ground (arith, free c (sym (fair w.tick (w.links s).incompat c) ∙ m), on)
  ]

  idle_of_disabled :
      (s : Ref) (w : World)
      → Inv (view w)
      → (w.flags s).enabled ≡ false
      → (w.flags s).running ≡ false
  idle_of_disabled s w i off = elim (Bool-cases (w.flags s).running) [
    | inr h ↦ h
    | inl h ↦ ground (arith, (runnable_parts w.flags (w.links s) s (i.sound s h)).1)
  ]

  -- For providers whose calls return, with nil or any error, a clock and map orders of any kind
  -- (an order only has to visit just what is in the map): if the invariant holds, a managed
  -- service is not enabled, all its dependencies are satisfied, none that it conflicts with is
  -- enabled and its provider always starts it, then Enable answers nil, returns and leaves the
  -- service running.
  pub enable-Runs :
      (s : Ref) (w : World)
      → Inv (view w)
      → (w.links s).managed ≡ true
      → (w.flags s).enabled ≡ false
      → all_satisfied w.flags (w.links s).parents ≡ true
      → ((c : Ref) → contains c (w.links s).incompat ≡ true → (w.flags c).enabled ≡ false)
      → ((t : ℕ) → env.start_result t s ≡ none)
      → ((enable env s w).0 ≡ none) × Ensures (λ x. (x.flags s).running ≡ true) (enable env s w).1
  unfolding enable admit
  enable-Runs s w i member off met free works =
      let g = readied s (w.flags s).failed w.flags in
      let v = admit env s (record w { tick = suc w.tick }) in
      let j =
        recounted-Inv s _ (readied-Inv s (view w) i (w.flags s).failed free (λ h. h) member) in
      let idle = idle_of_disabled s w i off in
      let apart = any_enabled-false g (w.links s).incompat (λ c m.
        readied-Exclusive s (view w) i (w.flags s).failed free (λ h. h) member s c (ground arith)
          m) in
      let may =
        runnable_intro g (w.links s) s (ground (arith, i.still s)) (ground arith)
          (all_satisfied_mono w.flags g (w.links s).parents (λ d up. ground arith) met) apart in
      rw (member, off, no_blocker s w free)
        (
          refl,
          start-Runs env fair s "Enabled service" v j member (ground arith) (ground (arith, idle))
              may works,
        )

  -- For providers whose calls return, with nil or any error, a clock and map orders of any kind
  -- (an order only has to visit just what is in the map): if a managed service is not enabled
  -- and one that it conflicts with is, then Enable answers ErrConflict, returns and leaves the
  -- flags and the limiters of all services as they are.
  pub enable-Refuses :
      (s c : Ref) (w : World)
      → (w.links s).managed ≡ true
      → (w.flags s).enabled ≡ false
      → contains c (w.links s).incompat ≡ true
      → (w.flags c).enabled ≡ true
      → ((enable env s w).0 ≡ some conflict)
        × Ensures (λ x. (x.flags ≡ w.flags) × (x.rate ≡ w.rate)) (enable env s w).1
  unfolding enable refuse
  enable-Refuses s c w member off m on = elim (Option-cases (blocker s w)) [
    | inl e ↦
        let low =
          first_enabled-none (record w { tick = suc w.tick }) _ c e
            (fair w.tick (w.links s).incompat c ∙ m) in
        ground (arith, low, on)
    | inr (d, e) ↦ rw (member, off, e) (refl, ensured (refl, refl))
  ]

  -- For providers whose calls return, with nil or any error, a clock and map orders of any kind
  -- (an order only has to visit just what is in the map): if the invariant holds and a service
  -- is managed, then Disable answers nil, returns and leaves the service neither enabled nor
  -- running, and every other service enabled as before.
  pub disable-Stops :
      (s : Ref) (w : World)
      → Inv (view w)
      → (w.links s).managed ≡ true
      → ((disable env s w).0 ≡ none)
        × Ensures
            (λ x.
              ((x.flags s).enabled ≡ false)
              × ((x.flags s).running ≡ false)
              × ((r : Ref) → (x.flags r).enabled ≡ ((w.flags r).enabled && not (s == r))))
            (disable env s w).1
  unfolding disable retire
  disable-Stops s w i member =
      elim (Bool-cases (not (w.flags s).enabled && str_eq (w.info s).reason "Disabled")) [
        | inl old ↦
            rw (member, old)
              (
                refl,
                ensured (
                  ground (arith, old),
                  idle_of_disabled s w i (ground (arith, old)),
                  λ r. ground (arith, old, ==_iff s r),
                ),
              )
        | inr new ↦
            rw (member, new)
              (
                refl,
                Ensures-mono
                    (stop-Ended env fair s "Disabled" (retire env s w)
                      (weakened-Ending s (view w) _ i refl refl (λ h. cc)) member)
                    (λ x p. (
                      ground (arith, p.frame.enabled s),
                      p.gone,
                      λ r. ground (arith, p.frame.enabled r),
                    )),
              )
      ]

  -- For providers whose calls return, with nil or any error, a clock and map orders of any kind
  -- (an order only has to visit just what is in the map): if the invariant holds and a managed
  -- service runs whose provider reports the error e, then checkService answers e, returns and
  -- leaves the service not running, failed and with the error e, and the invariant holds.
  pub check_service-Stops :
      (s : Ref) (e : Error) (w : World)
      → Inv (view w)
      → (w.links s).managed ≡ true
      → (w.flags s).running ≡ true
      → ((t : ℕ) → env.check_result t s ≡ some e)
      → ((check_service env s w).0 ≡ some e)
        × Ensures
            (λ x.
              ((x.flags s).running ≡ false)
              × ((x.flags s).failed ≡ true)
              × ((x.info s).err ≡ some e)
              × Inv (view x))
            (check_service env s w).1
  unfolding check_service faulted note_fault
  check_service-Stops s e w i member on bad =
      rw (i.healthy s on, on, bad w.tick)
        (
          refl,
          Ensures-bind
              (stop-Ended env fair s _ (note_fault env s e (polled s w))
                (weakened-Ending s (view w) _ i refl refl (λ h. h)) member)
              (λ x p. ensured (p.gone, ground (arith, p.frame.failed s), ground arith, p.inv)),
        )
