-- ===== src/Invariant/Shutdown.antt =====
-- manager.go, `Shutdown` against the invariant.
use govisor.Common.{
  suc, true, false, ◌≡◌, refl, sym, ap, subst, ◌∙◌, List, [], ◌∷◌, arith, Bool-cases, inl, inr,
  ◌==◌, ==_iff,
}
use govisor.Common.Refs.{Ref, contains, contains-remove}
use govisor.World.{World, Env, Flags, done}
use govisor.World.Steps.{set_flags}
use govisor.Service.Run.{stop}
use govisor.Service.Graph.{del_manager}
use govisor.Manager.{shut, shutdown}
use govisor.Invariant.Post.{Ensures, ensured, Ensures-bind, Ensures-mono, Ensures-for_each}
use govisor.Invariant.Neighbours.{View, view}
use govisor.Invariant.Frames.{Fair}
use govisor.Invariant.Quiet.{Inv, stop-Ended}
use govisor.Invariant.Switch.{weakened-Ending}
use govisor.Invariant.Managing.{not_running_of_disabled}
use govisor.Invariant.Manager.{nobody, put_same, disabled_same, put_running, del_manager-Inv}

module _ (env : Env) (fair : Fair env) where
  -- A service that does not run is not stopped again.
  stop_idle :
      (r : Ref) (w : World) → (w.flags r).running ≡ false → stop env r "Shutting down" w ≡ done w
  unfolding stop
  stop_idle r w off = rw off

  -- The stop in `Shutdown`: the service is disabled first.
  shut_stop :
      (r : Ref) (w : World)
      → Inv (view w)
      → Ensures
          (λ x. Inv (view x) × ((x.flags r).enabled ≡ false) × (x.services ≡ w.services))
          (stop env r "Shutting down" (set_flags r (record (w.flags r) { enabled = false }) w))
  shut_stop r w i = elim (Bool-cases (w.links r).managed) [
    | inl member ↦
        Ensures-mono
          (stop-Ended env fair r "Shutting down" _
            (weakened-Ending r (view w) _ i refl refl (λ h. cc)) member)
          (λ x p. (p.inv, p.frame.enabled r ∙ ground arith, p.fixed.services))
    | inr outside ↦
        let off = i.detached r outside in
        let same = put_same w.flags r _ (disabled_same (w.flags r) off) in
        rw
          (stop_idle r (set_flags r (record (w.flags r) { enabled = false }) w)
            (put_running w.flags r off (not_running_of_disabled (view w) r i off)))
          (ensured (
            subst (λ (f : Ref → Flags). Inv (record (view w) { flags = f })) (sym same) i,
            ground arith,
            refl,
          ))
  ]

  -- The services still in the manager are left to visit.
  record Leaving (rest : List Ref) (u : View) : Type 0 where
    inv : Inv u
    left : (r : Ref) → contains r u.services ≡ true → contains r rest ≡ true

  services-del_manager :
      (s : Ref) (w : World)
      → Inv (view w)
      → (r : Ref) → contains r (del_manager env s w).services ≡ true
      → ((s == r) ≡ false) × (contains r w.services ≡ true)
  unfolding del_manager
  services-del_manager s w i r m = elim (Bool-cases (w.links s).managed) [
    | inl member ↦
        let h = sym (contains-remove s r w.services) ∙ (rw member at m) in
        (ground (arith, h), ground (arith, h))
    | inr outside ↦
        let h = rw outside at m in
        (
          elim (Bool-cases (s == r)) [
            | inr other ↦ other
            | inl same ↦ cc (
              subst (λ k. contains k w.services ≡ true) (sym ((==_iff s r).0 same)) h,
              i.graph.managed s,
              outside,
            )
          ],
          h,
        )
  ]

  -- What is left once `r` has stopped.
  leave :
      (r : Ref) (rs : List Ref) (w x : World)
      → Leaving (r ∷ rs) (view w)
      → Inv (view x)
      → (x.flags r).enabled ≡ false
      → x.services ≡ w.services
      → Leaving rs (view (del_manager env r x))
  unfolding contains
  leave r rs w x v i off same = record {
    inv = del_manager-Inv env fair r x i off;
    left = λ t m.
        let (far, h) = services-del_manager r x i t m in
        rw far at (v.left t (ap (contains t) (sym same) ∙ h));
  }

  shut-Leaving :
      (r : Ref) (rs : List Ref) (w : World)
      → Leaving (r ∷ rs) (view w)
      → Ensures (λ x. Leaving rs (view x)) (shut env r w)
  unfolding shut
  shut-Leaving r rs w v =
      Ensures-bind (shut_stop r w v.inv) (λ x p. ensured (leave r rs w x v p.0 p.1 p.2))

  -- With nothing left to visit, nothing is left.
  Leaving-nil :
      (u : View)
      → Leaving [] u
      → (r : Ref)
      → (contains r u.services ≡ false)
        × ((u.flags r).enabled ≡ false)
        × ((u.flags r).running ≡ false)
  Leaving-nil u v r =
      let gone : contains r u.services ≡ false = elim (Bool-cases (contains r u.services)) [
        | inr out ↦ out
        | inl still ↦ cc (v.left r still, nobody r)
      ] in
      let off = v.inv.detached r (v.inv.graph.managed r ∙ gone) in
      (gone, off, not_running_of_disabled u r v.inv off)

  shutdown_loop : (w : World) → Inv (view w) → Ensures (λ x. Leaving [] (view x)) (shutdown env w)
  unfolding shutdown
  shutdown_loop w i =
      Ensures-bind
        (Ensures-for_each (λ l x. Leaving l (view x)) (shut env) shut-Leaving
          (env.order w.tick w.services) (record w { monitoring = false; tick = suc w.tick })
          (record { inv = i; left = λ r m. fair w.tick w.services r ∙ m }))
        (λ x v. ensured (record { inv = v.inv; left = v.left }))

  -- For providers whose calls return, with nil or any error, a clock and map orders of any kind
  -- (an order only has to visit just what is in the map): if the invariant holds, Shutdown
  -- returns, the invariant holds, no service is left in the manager, and none is enabled or
  -- runs.
  pub shutdown_empties :
      (w : World)
      → Inv (view w)
      → Ensures
          (λ x.
            Inv (view x)
            × ((r : Ref)
                → (contains r x.services ≡ false)
                  × ((x.flags r).enabled ≡ false)
                  × ((x.flags r).running ≡ false)))
          (shutdown env w)
  shutdown_empties w i = Ensures-mono (shutdown_loop w i) (λ x v. (v.inv, Leaving-nil (view x) v))
