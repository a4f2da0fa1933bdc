-- ===== src/Invariant/Runs.antt =====
-- service.go `startRecurse` of a service that may run.
use govisor.Common.{ℕ, String, true, false, ◌≡◌, refl, sym, ap, subst, ◌∙◌, none, arith, length}
use govisor.Common.Refs.{Ref}
use govisor.World.{World, Env, Flags, Links}
use govisor.World.Steps.{bump}
use govisor.Service.Runnable.{runnable, can_run}
use govisor.Service.Limit.{free, too_quickly}
use govisor.Service.Run.{go, after_pace, attempt, after_attempt, start_step, start_recurse, start}
use govisor.Invariant.Post.{Ensures}
use govisor.Invariant.Neighbours.{view, view-can_run, can_run-runnable}
use govisor.Invariant.Paced.{RateOk, Paced, Paced-trans, Paced-of_view, record_start-Paced}
use govisor.Invariant.Frames.{Fair}
use govisor.Invariant.Start.{launch-Runs, Paced-StartPre, start_recurse-Post}
use govisor.Invariant.Quiet.{Inv, IsGraph-Closed, Inv-StartPre}

module _ (env : Env) where
  -- The limiter lets a service start that has not been started since its count was reset.
  too_quickly-free :
      (s : Ref) (w : World)
      → RateOk (w.rate s)
      → (w.rate s).starts ≡ 0
      → too_quickly env s w ≡ (free, w)
  unfolding too_quickly
  too_quickly-free s w ok new = ground (arith, ok)

  attempt-go :
      (s : Ref) (w : World)
      → ((r : Ref) → RateOk (w.rate r))
      → (w.rate s).starts ≡ 0
      → (w.flags s).running ≡ false
      → runnable w.flags (w.links s) (w.flags s) ≡ true
      → (x : World) × (attempt env s w ≡ go x) × Paced w x
  unfolding attempt after_pace
  attempt-go s w ok new off may =
      let v = (can_run env s w).1 in
      let q = Paced-of_view w v (view-can_run env s w) ok in
      let same = ap (λ u. (u.rate s).starts) (view-can_run env s w) in
      let (x, e, p) = record_start-Paced env s v q.rates in
      (
        bump env s x,
        rw
            (
              off,
              can_run-runnable env s w ∙ may,
              too_quickly-free s v (q.rates s) (same ∙ new),
              e,
              after_pace,
            )
            refl,
        Paced-trans q (Paced-trans p (Paced-of_view x (bump env s x) refl p.rates)),
      )

  module _ (fair : Fair env) where
    pub start-Runs :
        (s : Ref) (detail : String) (w : World)
        → Inv (view w)
        → (w.links s).managed ≡ true
        → (w.rate s).starts ≡ 0
        → (w.flags s).running ≡ false
        → runnable w.flags (w.links s) (w.flags s) ≡ true
        → ((t : ℕ) → env.start_result t s ≡ none)
        → Ensures (λ x. (x.flags s).running ≡ true) (start env s detail w)
    unfolding start start_recurse start_step after_attempt
    start-Runs s detail w i m new off may works =
        let (x, e, p) = attempt-go s w i.rates new off may in
        rw e (
          launch-Runs env fair (view w) (IsGraph-Closed i.graph) (length w.services) _
            (λ c y h.
              start_recurse-Post env fair (view w) (IsGraph-Closed i.graph) (length w.services) c
                "Dependency running" y h)
            s detail x
            (Paced-StartPre env fair (view w) (IsGraph-Closed i.graph) _ s w x
              (Inv-StartPre env fair s w i m) p)
            (ap (λ (f : Ref → Flags). (f s).running) p.flags ∙ off)
            (subst (λ (f : Ref → Flags). runnable f (x.links s) (f s) ≡ true) (sym p.flags)
              (subst (λ (l : Ref → Links). runnable w.flags (l s) (w.flags s) ≡ true) (sym p.links)
                may))
            (works _))
