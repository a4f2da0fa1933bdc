-- ===== src/Invariant/Calls.antt =====
-- service.go, the methods of Service that clients call, against the invariant.
use govisor.Common.{
  suc, String, true, false, not, ◌&&◌, ◌≡◌, refl, sym, ap, subst, ◌∙◌, ◌∷◌, arith, Bool-cases,
  Option-cases, none, inl, inr, str_eq,
}
use govisor.Common.Refs.{Ref, contains}
use govisor.World.Steps.{bump}
use govisor.World.{check_call, World, Env, Error, Links, Outcome, put}
use govisor.Service.Run.{start, stop, check_service, note_fault, faulted, healthy}
use govisor.Service.Api.{
  first_enabled, refuse, admit, enable, retire, disable, begin_restart, resume, restart,
  note_cleared, forgive, clear,
}
use govisor.Invariant.Post.{Ensures, ensured, Ensures-bind, Ensures-mono}
use govisor.Invariant.Neighbours.{View, view}
use govisor.Invariant.Frames.{Fair, Fixed, Fixed-trans}
use govisor.Invariant.Quiet.{Inv, Ended, Ending, Fixed-refl, Lasting, start-Began, stop-Ended}
use govisor.Invariant.Switch.{first_enabled-none, readied-Inv, cleared-Inv, weakened-Ending}

-- An operation returns, keeps the invariant and leaves the graph alone.
pub record Kept (v w : World) : Type 0 where
  pub inv : Inv (view w)
  pub fixed : Lasting v w

abbrev pub Keeps : World → Outcome → Type 0
Keeps v = Ensures (Kept v)

Kept-refl : (w : World) → Inv (view w) → Kept w w
Kept-refl w i = record { inv = i; fixed = Fixed-refl (view w) }

-- Resetting the count of starts keeps the limiter in order.
pub recounted-Inv :
    (s : Ref) (u : View)
    → Inv u
    → Inv (record u { rate = put u.rate s (record (u.rate s) { starts = 0 }) })
recounted-Inv s u i = record {
  graph = i.graph;
  sound = i.sound;
  still = i.still;
  healthy = i.healthy;
  exclusive = i.exclusive;
  detached = i.detached;
  rates = λ r. ground (arith, i.rates r, i.rates s);
}

-- Two views of the same graph.
abbrev alike :
    {v w : View} → w.links ≡ v.links → w.props ≡ v.props → w.services ≡ v.services → Fixed v w
alike l p ss = record { links = l; props = p; services = ss }

-- The provider has been asked.
abbrev pub polled : Ref → World → World
polled s w = record w {
  info = put w.info s (record (w.info s) { checking = true });
  tick = suc w.tick;
  trace = check_call s ∷ w.trace;
}

module _ (env : Env) (fair : Fair env) where
  -- A start from a world `v` that an operation has made of `w`.
  pub start-Keeps :
      (s : Ref) (detail : String) (w v : World)
      → Lasting w v
      → Inv (view v)
      → (w.links s).managed ≡ true
      → Keeps w (start env s detail v)
  start-Keeps s detail w v e i m =
      Ensures-mono
        (start-Began env fair s detail v i
          (subst (λ (l : Ref → Links). (l s).managed ≡ true) (sym e.links) m))
        (λ x p. record { inv = p.inv; fixed = Fixed-trans e p.fixed })

  -- A stop likewise.
  pub stop-Keeps :
      (s : Ref) (detail : String) (w v : World)
      → Lasting w v
      → Ending s (view v)
      → (w.links s).managed ≡ true
      → Ensures (λ x. Kept w x × ((x.flags s).running ≡ false)) (stop env s detail v)
  stop-Keeps s detail w v e i m =
      Ensures-mono
        (stop-Ended env fair s detail v i
          (subst (λ (l : Ref → Links). (l s).managed ≡ true) (sym e.links) m))
        (λ x p. (record { inv = p.inv; fixed = Fixed-trans e p.fixed }, p.gone))

  -- None of the services that `s` conflicts with is enabled.
  pub free_of_none :
      (s : Ref) (w : World)
      → first_enabled (record w { tick = suc w.tick }) (env.order w.tick (w.links s).incompat)
        ≡ none
      → (c : Ref) → contains c (w.links s).incompat ≡ true
      → (w.flags c).enabled ≡ false
  free_of_none s w e c m =
      first_enabled-none (record w { tick = suc w.tick }) (env.order w.tick (w.links s).incompat) c
        e (fair w.tick (w.links s).incompat c ∙ m)

  pub enable-Keeps : (s : Ref) (w : World) → Inv (view w) → Keeps w (enable env s w).1
  unfolding enable refuse admit
  enable-Keeps s w i = elim (Bool-cases (w.links s).managed) [
    | inr not_in ↦ rw not_in (ensured (Kept-refl w i))
    | inl member ↦ elim (Bool-cases (w.flags s).enabled) [
      | inl on ↦ rw (member, on) (ensured (Kept-refl w i))
      | inr off ↦
          rw (member, off)
            (elim (Option-cases (
              first_enabled (record w { tick = suc w.tick })
                (env.order w.tick (w.links s).incompat))) [
                  | inr (c, e) ↦ rw e (ensured (record { inv = i; fixed = alike refl refl refl }))
                  | inl e ↦ rw e (
                      start-Keeps s "Enabled service" w
                        (admit env s (record w { tick = suc w.tick })) (alike refl refl refl)
                        (recounted-Inv s _ (
                          readied-Inv s (view w) i (w.flags s).failed (free_of_none s w e) (λ h. h)
                            member))
                        member)
                ])
    ]
  ]

  -- `Disable` also leaves the service not running.
  pub disable-Keeps : (s : Ref) (w : World) → Inv (view w) → Keeps w (disable env s w).1
  unfolding disable retire
  disable-Keeps s w i = elim (Bool-cases (w.links s).managed) [
    | inr not_in ↦ rw not_in (ensured (Kept-refl w i))
    | inl member ↦
        elim (Bool-cases (not (w.flags s).enabled && str_eq (w.info s).reason "Disabled")) [
          | inl old ↦ rw (member, old) (ensured (Kept-refl w i))
          | inr new ↦
              rw (member, new)
                (Ensures-mono
                  (stop-Keeps s "Disabled" w (retire env s w) (alike refl refl refl)
                    (weakened-Ending s (view w) _ i refl refl (λ h. cc)) member)
                  (λ x p. p.0))
        ]
  ]

  -- `Restart` once the service has stopped.
  resume-Keeps :
      (s : Ref) (w x : World)
      → Inv (view w)
      → (w.flags s).enabled ≡ true
      → (w.links s).managed ≡ true
      → Ended s (begin_restart env s w) x
      → Keeps w (start env s "Restarting" (resume env s x))
  unfolding resume begin_restart
  resume-Keeps s w x i on m p =
      start-Keeps s "Restarting" w (resume env s x)
        (alike p.fixed.links p.fixed.props p.fixed.services)
        (recounted-Inv s _ (
          readied-Inv s (view x) p.inv false
            (λ c m'.
              let m'' : contains c (w.links s).incompat ≡ true =
                ap (λ (l : Ref → Links). contains c (l s).incompat) (sym p.fixed.links) ∙ m' in
              p.frame.enabled c ∙ ground (arith, i.exclusive s c on m''))
            (λ h. cc) (ap (λ (l : Ref → Links). (l s).managed) p.fixed.links ∙ m)))
        m

  -- For providers, a clock and map orders of any kind (an order only has to visit just what is
  -- in the map): if the invariant holds, Restart returns, keeps it, and changes neither the
  -- graph nor the services of the manager.
  pub restart-Keeps : (s : Ref) (w : World) → Inv (view w) → Keeps w (restart env s w).1
  unfolding restart begin_restart
  restart-Keeps s w i = elim (Bool-cases (w.links s).managed) [
    | inr not_in ↦ rw not_in (ensured (Kept-refl w i))
    | inl member ↦ elim (Bool-cases (w.flags s).enabled) [
      | inr off ↦ rw (member, off) (ensured (Kept-refl w i))
      | inl on ↦
          rw (member, on)
            (Ensures-bind
              (stop-Ended env fair s "Stopping for restart" (begin_restart env s w)
                (weakened-Ending s (view w) _ i refl refl (λ h. cc)) member)
              (λ x p. resume-Keeps s w x i on member p))
    ]
  ]

  view-note_cleared : (s : Ref) (w : World) → view (note_cleared env s w) ≡ view w
  unfolding note_cleared
  view-note_cleared s w = ground arith

  view-healthy : (s : Ref) (w : World) → view (healthy env s w) ≡ view w
  unfolding healthy
  view-healthy s w = ground arith

  -- For providers, a clock and map orders of any kind (an order only has to visit just what is
  -- in the map): if the invariant holds, Clear returns, keeps it, and changes neither the graph
  -- nor the services of the manager.
  pub clear-Keeps : (s : Ref) (w : World) → Inv (view w) → Keeps w (clear env s w)
  unfolding clear forgive
  clear-Keeps s w i = elim (Bool-cases (w.links s).managed) [
    | inr not_in ↦ rw not_in (ensured (Kept-refl w i))
    | inl member ↦
        let q = view-note_cleared s (bump env s w) in
        rw member (
          start-Keeps s "Cleared fault" w (forgive env s w)
            (alike (ap (λ u. u.links) q) (ap (λ u. u.props) q) (ap (λ u. u.services) q))
            (cleared-Inv s _ (recounted-Inv s _ (subst Inv (sym q) i))) member)
  ]

  faulted-Keeps :
      (s : Ref) (e : Error) (w : World)
      → Inv (view w)
      → (w.links s).managed ≡ true
      → Keeps w (faulted env s e w)
  unfolding faulted note_fault
  faulted-Keeps s e w i m =
      Ensures-bind
        (stop-Keeps s _ w (note_fault env s e w) (alike refl refl refl)
          (weakened-Ending s (view w) _ i refl refl (λ h. h)) m)
        (λ x p. ensured (record { inv = p.0.inv; fixed = p.0.fixed }))

  pub check_service-Keeps :
      (s : Ref) (w : World)
      → Inv (view w)
      → (w.links s).managed ≡ true
      → Keeps w (check_service env s w).1
  unfolding check_service
  check_service-Keeps s w i m = elim (Bool-cases (w.flags s).failed) [
    | inl bad ↦ rw bad (ensured (Kept-refl w i))
    | inr well ↦ elim (Bool-cases (w.flags s).running) [
      | inr off ↦ rw (well, off) (ensured (Kept-refl w i))
      | inl on ↦
          rw (well, on)
            (elim (Option-cases (env.check_result w.tick s)) [
              | inr (e, f) ↦ rw f (
                  Ensures-mono (faulted-Keeps s e (polled s w) i m) (λ x p. record {
                    inv = p.inv;
                    fixed = alike p.fixed.links p.fixed.props p.fixed.services;
                  }))
              | inl e ↦ rw e (
                  ensured (record {
                    inv = subst Inv (sym (view-healthy s (polled s w))) i;
                    fixed =
                        subst (Fixed (view w)) (sym (view-healthy s (polled s w)))
                          (alike refl refl refl);
                  }))
            ])
    ]
  ]
