-- ===== src/Invariant/Managing.antt =====
-- manager.go, putting a service into the manager and taking it out, against the invariant.
use govisor.Common.{
  true, false, ◌≡◌, refl, sym, ap, subst, ◌∙◌, List, [], ◌∷◌, arith, Bool-cases, inl, inr, ◌==◌,
  ==_iff, if◌then◌else◌,
}
use govisor.Common.Refs.{Ref, contains, insert, remove, contains-insert}
use govisor.World.{Flags, Links, Groups, put}
use govisor.Service.Runnable.{satisfied, all_satisfied, any_enabled, is_up, runnable}
use govisor.Service.Graph.{
  without_incompat, without_parent, without_child, drop_parent, unlink, link_all, fresh_links,
}
use govisor.Invariant.Neighbours.{View, runnable_parts}
use govisor.Invariant.Graph.{IsGraph}
use govisor.Invariant.Link.{link_all-IsGraph, fresh-IsGraph}
use govisor.Invariant.Newcomer.{Gains, Gains-link_all, runnable-Gains}
use govisor.Invariant.Unlink.{unlink-IsGraph, incompat-unlink, unlink_keep}
use govisor.Invariant.Quiet.{Inv}

module _ (f : Ref → Flags) (s : Ref) where
  satisfied-remove :
      (ds : List Ref) → is_up (f s) ≡ false → satisfied f (remove s ds) ≡ satisfied f ds
  unfolding satisfied remove
  satisfied-remove [] down = refl
  satisfied-remove (d ∷ ds) down = elim (Bool-cases (d == s)) [
    | inl same ↦
        rw (same, subst (λ k. is_up (f k) ≡ false) (sym ((==_iff d s).0 same)) down)
          (satisfied-remove ds down)
    | inr other ↦ rw other (ap (λ r. if is_up (f d) then true else r) (satisfied-remove ds down))
  ]

  all_satisfied-drop_parent :
      (gs : Groups) → is_up (f s) ≡ false → all_satisfied f (drop_parent s gs) ≡ all_satisfied f gs
  unfolding all_satisfied drop_parent
  all_satisfied-drop_parent [] down = refl
  all_satisfied-drop_parent ((k, g) ∷ gs) down =
      ground (arith, satisfied-remove g down, all_satisfied-drop_parent gs down)

  any_enabled-remove :
      (cs : List Ref) → (f s).enabled ≡ false → any_enabled f (remove s cs) ≡ any_enabled f cs
  unfolding any_enabled remove
  any_enabled-remove [] off = refl
  any_enabled-remove (c ∷ cs) off = elim (Bool-cases (c == s)) [
    | inl same ↦
        rw (same, subst (λ k. (f k).enabled ≡ false) (sym ((==_iff c s).0 same)) off)
          (any_enabled-remove cs off)
    | inr other ↦ rw other (ap (λ r. if (f c).enabled then true else r) (any_enabled-remove cs off))
  ]

-- `runnable` reads the groups and the conflicts of a service through two tests.
runnable_congr :
    (f : Ref → Flags) (k l : Links) (x : Flags)
    → all_satisfied f k.parents ≡ all_satisfied f l.parents
    → any_enabled f k.incompat ≡ any_enabled f l.incompat
    → runnable f k x ≡ runnable f l x
unfolding runnable
runnable_congr f k l x a b = ground arith

-- A service that is not enabled is neither up nor running.
pub not_running_of_disabled :
    (u : View) (s : Ref) → Inv u → (u.flags s).enabled ≡ false → (u.flags s).running ≡ false
not_running_of_disabled u s i off = elim (Bool-cases (u.flags s).running) [
  | inr still ↦ still
  | inl on ↦ cc ((runnable_parts u.flags (u.links s) s (i.sound s on)).1, off)
]

-- Taking a service that is not enabled out of the graph.
pub removed-Inv :
    (s : Ref) (u : View)
    → Inv u
    → (u.flags s).enabled ≡ false
    → Inv (record u { links = unlink s u.links; services = remove s u.services })
removed-Inv s u i off = record {
  graph = unlink-IsGraph u.props u.links u.services i.graph s;
  sound = λ r on. elim (Bool-cases (s == r)) [
    | inl same ↦ cc (
      subst (λ k. (u.flags k).running ≡ false) ((==_iff s r).0 same)
          (not_running_of_disabled u s i off),
      on,
    )
    | inr other ↦ unlinked r other ∙ i.sound r on
  ];
  still = i.still;
  healthy = i.healthy;
  exclusive = λ r c on m.
      i.exclusive r c on
        (ground (arith, m, incompat-unlink u.props u.links u.services i.graph s r c));
  detached = λ r h. elim (Bool-cases (s == r)) [
    | inl same ↦ subst (λ k. (u.flags k).enabled ≡ false) ((==_iff s r).0 same) off
    | inr other ↦ i.detached r (
        sym (unlink_keep (λ k. k.managed) s u.links (λ k. refl) (λ k. refl) (λ k. refl) r other)
        ∙ h)
  ];
  rates = i.rates;
}
  where
    unlinked :
        (r : Ref)
        → (s == r) ≡ false
        → runnable u.flags (unlink s u.links r) (u.flags r)
          ≡ runnable u.flags (u.links r) (u.flags r)
    unlinked r other =
        unlink_keep (λ k. runnable u.flags k (u.flags r)) s u.links
          (λ k.
            runnable_congr u.flags (without_incompat s k) k (u.flags r) refl
              (any_enabled-remove u.flags s k.incompat off))
          (λ k.
            runnable_congr u.flags (without_parent s k) k (u.flags r)
              (all_satisfied-drop_parent u.flags s k.parents (ground (arith, off))) refl)
          (λ k. runnable_congr u.flags (without_child s k) k (u.flags r) refl refl) r other

-- Putting a service into the graph that is not in it.
module _ (s : Ref) (u : View) (i : Inv u) (out : contains s u.services ≡ false) where
  abbrev linked : Ref → Links
  linked = link_all u.props s u.services (put u.links s (fresh_links (u.props s)))

  disabled : (u.flags s).enabled ≡ false
  disabled = i.detached s (i.graph.managed s ∙ out)

  -- Only the newcomer can be the newcomer.
  far_of_enabled : (r : Ref) → (u.flags r).enabled ≡ true → (s == r) ≡ false
  far_of_enabled r on = elim (Bool-cases (s == r)) [
    | inr other ↦ other
    | inl same ↦ cc (subst (λ k. (u.flags k).enabled ≡ false) ((==_iff s r).0 same) disabled, on)
  ]

  far_of_member : (t : Ref) → contains t u.services ≡ true → (s == t) ≡ false
  far_of_member t m = elim (Bool-cases (s == t)) [
    | inr other ↦ other
    | inl same ↦ cc (subst (λ k. contains k u.services ≡ false) ((==_iff s t).0 same) out, m)
  ]

  linked-IsGraph : IsGraph u.props linked (insert s u.services)
  linked-IsGraph =
      link_all-IsGraph u.props (insert s u.services) s u.services _
        (ground (arith, contains-insert s s u.services))
        (λ t m. (ground (arith, m, contains-insert s t u.services), far_of_member t m))
        (fresh-IsGraph u.props u.links u.services s i.graph out)

  gains : Gains u.flags s (put u.links s (fresh_links (u.props s))) linked
  gains = Gains-link_all u.flags s u.props u.services _

  pub added-Inv : Inv (record u { links = linked; services = insert s u.services })
  added-Inv = record {
    graph = linked-IsGraph;
    sound = λ r on.
        let may = i.sound r on in
        let other = far_of_enabled r (runnable_parts u.flags (u.links r) r may).1 in
        runnable-Gains u.flags s _ linked r gains disabled other (rw other may);
    still = i.still;
    healthy = i.healthy;
    exclusive = λ r c on m. elim (Bool-cases (s == c)) [
      | inl same ↦ subst (λ k. (u.flags k).enabled ≡ false) ((==_iff s c).0 same) disabled
      | inr far ↦
          let other = far_of_enabled r on in
          i.exclusive r c on (rw other at (gains.rivals r c other far m))
    ];
    detached = λ r h. i.detached r (
        ground
          (arith, h, linked-IsGraph.managed r, contains-insert s r u.services, i.graph.managed r));
    rates = i.rates;
  }
