-- ===== src/Invariant/Manager.antt =====
-- manager.go, `AddService`, `DeleteService`, `monitor` and `notify` against the invariant.
use mathlib.Core.Path.{fun_ext}
use govisor.Common.{
  suc, true, false, ◌&&◌, ◌≡◌, refl, sym, ap, subst, ◌∙◌, List, [], ◌∷◌, arith, Bool-cases,
  Option-cases, inl, inr, str_eq, eq_iff, ◌==◌, ==_iff, if◌then◌else◌,
}
use govisor.Common.Refs.{Ref, contains, contains-cons_self, contains-cons_tail}
use govisor.World.{World, Env, Flags, Links, Props, Outcome, put}
use govisor.World.Steps.{log_line}
use govisor.Service.Run.{check_service, self_heal}
use govisor.Service.Graph.{set_manager, del_manager}
use govisor.Manager.{
  name_taken, add_service, delete_service, watch, end_pass, pass, monitor_pass, notify,
  list_changed,
}
use govisor.Invariant.Post.{Ensures, ensured, Ensures-bind, Ensures-mono, Ensures-for_each}
use govisor.Invariant.Neighbours.{View, view}
use govisor.Invariant.Frames.{Fair, Fixed-trans}
use govisor.Invariant.Quiet.{Inv, Fixed-refl}
use govisor.Invariant.Calls.{Keeps, start-Keeps, check_service-Keeps}
use govisor.Invariant.Managing.{removed-Inv, added-Inv}

-- An operation returns and keeps the invariant.
abbrev pub Safe : Outcome → Type 0
Safe = Ensures (λ x. Inv (view x))

pub nobody : (r : Ref) → contains r [] ≡ false
unfolding contains
nobody r = refl

-- A service whose name is free is not in the manager.
out_of_name :
    (props : Ref → Props) (s : Ref) (ts : List Ref)
    → name_taken props (props s).name ts ≡ false
    → contains s ts ≡ false
unfolding name_taken contains
out_of_name props s [] h = refl
out_of_name props s (t ∷ ts) h = elim (Bool-cases (t == s)) [
  | inr other ↦ rw other (out_of_name props s ts (ground (arith, h)))
  | inl same ↦ cc (
    subst (λ k. str_eq (props s).name (props k).name ≡ true) (sym ((==_iff t s).0 same))
        ((eq_iff (props s).name (props s).name).1 refl),
    first_false h,
  )
]
  where
    first_false :
        (if str_eq (props s).name (props t).name then true else name_taken props (props s).name ts)
          ≡ false
        → str_eq (props s).name (props t).name ≡ false
    first_false e = ground (arith, e)

pub put_same : (f : Ref → Flags) (s : Ref) (x : Flags) → x ≡ f s → put f s x ≡ f
put_same f s x e = fun_ext λ r. elim (Bool-cases (s == r)) [
  | inl same ↦ rw same (e ∙ ap f ((==_iff s r).0 same))
  | inr other ↦ rw other
]

pub disabled_same : (f : Flags) → f.enabled ≡ false → record f { enabled = false } ≡ f
disabled_same f off = ground arith

pub put_running :
    (f : Ref → Flags) (s : Ref)
    → (f s).enabled ≡ false
    → (f s).running ≡ false
    → (put f s (record (f s) { enabled = false }) s).running ≡ false
put_running f s off idle = ground arith

module _ (env : Env) (fair : Fair env) where
  -- For providers, a clock and map orders of any kind (an order only has to visit just what is
  -- in the map): if the invariant holds, AddService returns and keeps it; the name check keeps
  -- it from adding a service twice, so setManager does not panic.
  pub add_service-Safe : (s : Ref) (w : World) → Inv (view w) → Safe (add_service env s w).1
  unfolding add_service set_manager list_changed
  add_service-Safe s w i = elim (Bool-cases (name_taken w.props (w.props s).name w.services)) [
    | inl taken ↦ rw taken (ensured i)
    | inr new ↦
        let out = out_of_name w.props s w.services new in
        rw (new, i.graph.managed s ∙ out) (ensured (added-Inv s (view w) i out))
  ]

  pub del_manager-Inv :
      (s : Ref) (w : World)
      → Inv (view w)
      → (w.flags s).enabled ≡ false
      → Inv (view (del_manager env s w))
  unfolding del_manager
  del_manager-Inv s w i off = elim (Bool-cases (w.links s).managed) [
    | inl member ↦ rw member (removed-Inv s (view w) i off)
    | inr outside ↦ rw outside i
  ]

  pub delete_service-Safe : (s : Ref) (w : World) → Inv (view w) → Safe (delete_service env s w).1
  unfolding delete_service list_changed
  delete_service-Safe s w i = elim (Bool-cases (w.flags s).enabled) [
    | inl on ↦ rw on (ensured i)
    | inr off ↦ rw off (ensured (del_manager-Inv s w i off))
  ]

  self_heal-Keeps :
      (s : Ref) (w : World)
      → Inv (view w)
      → (w.links s).managed ≡ true
      → Keeps w (self_heal env s w)
  unfolding self_heal
  self_heal-Keeps s w i m = elim (Bool-cases ((w.flags s).failed && (w.props s).restart)) [
    | inr done_with ↦ rw done_with (ensured (record { inv = i; fixed = Fixed-refl (view w) }))
    | inl again ↦ rw again (
        start-Keeps env fair s "Self-healing attempt" w (log_line s "Attempting self-healing" w)
          (Fixed-refl (view w)) i m)
  ]

  watch-Keeps :
      (s : Ref) (w : World) → Inv (view w) → (w.links s).managed ≡ true → Keeps w (watch env s w)
  unfolding watch
  watch-Keeps s w i m = elim (Bool-cases (w.flags s).enabled) [
    | inr off ↦ rw off (ensured (record { inv = i; fixed = Fixed-refl (view w) }))
    | inl on ↦ elim (Option-cases (check_service env s w).0) [
      | inl none_found ↦ rw (on, none_found) (check_service-Keeps env fair s w i m)
      | inr (e, found) ↦
          rw (on, found)
            (Ensures-bind (check_service-Keeps env fair s w i m) (λ x k.
              Ensures-mono
                (self_heal-Keeps s x k.inv
                  (ap (λ (l : Ref → Links). (l s).managed) k.fixed.links ∙ m))
                (λ y h. record { inv = h.inv; fixed = Fixed-trans k.fixed h.fixed })))
    ]
  ]

  pub notify-Safe :
      (s : Ref) (w : World) → Inv (view w) → (w.links s).managed ≡ true → Safe (notify env s w)
  unfolding notify
  notify-Safe s w i m = elim (Bool-cases (w.info s).checking) [
    | inl busy ↦ rw busy (ensured i)
    | inr free ↦ rw free (Ensures-mono (watch-Keeps s w i m) (λ x k. k.inv))
  ]

  -- The services left to visit are in the manager.
  record Visiting (rest : List Ref) (u : View) : Type 0 where
    inv : Inv u
    here : (r : Ref) → contains r rest ≡ true → contains r u.services ≡ true

  watch-Visiting :
      (r : Ref) (rs : List Ref) (w : World)
      → Visiting (r ∷ rs) (view w)
      → Ensures (λ x. Visiting rs (view x)) (watch env r w)
  watch-Visiting r rs w v =
      Ensures-mono
        (watch-Keeps r w v.inv (v.inv.graph.managed r ∙ v.here r (contains-cons_self r rs)))
        λ x k. record {
          inv = k.inv;
          here = λ t m. ap (contains t) k.fixed.services ∙ v.here t (contains-cons_tail t r rs m);
        }

  view-end_pass : (w : World) → view (end_pass env w).0 ≡ view w
  unfolding end_pass
  view-end_pass w = ground arith

  monitor_loop : (w : World) → Inv (view w) → Ensures (λ x. Visiting [] (view x)) (pass env w)
  unfolding pass
  monitor_loop w i = elim (Bool-cases w.monitoring) [
    | inr idle ↦ rw idle (ensured (record { inv = i; here = λ r m. cc (nobody r, m) }))
    | inl on ↦ rw on (
        Ensures-for_each (λ l x. Visiting l (view x)) (watch env) watch-Visiting
          (env.order w.tick w.services) (record w { monitoring = true; tick = suc w.tick })
          (record { inv = i; here = λ r m. sym (fair w.tick w.services r) ∙ m }))
  ]

  -- For providers, a clock and map orders of any kind (an order only has to visit just what is
  -- in the map): if the invariant holds, a round of monitor over the services returns and keeps
  -- it, whatever the checks report and however the healing of failed services goes.
  pub monitor_pass-Safe : (w : World) → Inv (view w) → Safe (monitor_pass env w)
  unfolding monitor_pass
  monitor_pass-Safe w i =
      Ensures-bind (monitor_loop w i) (λ x v. ensured (subst Inv (sym (view-end_pass x)) v.inv))
