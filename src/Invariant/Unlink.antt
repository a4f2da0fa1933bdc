-- ===== src/Invariant/Unlink.antt =====
-- service.go `delManager` and the graph.
use govisor.Common.{
  String, Bool, true, false, ◌≡◌, refl, List, [], ◌∷◌, arith, if◌then◌else◌, ◌==◌, ==_iff, sym, ap,
  ◌∙◌, subst, Bool-cases, inl, inr,
}
use govisor.Common.Refs.{Ref, contains, remove, contains-remove}
use govisor.World.{Props, Links, Groups}
use govisor.Service.Graph.{
  alter, alter_all, without_incompat, without_parent, without_child, drop_children, no_links,
  unlink,
}
use govisor.Invariant.Neighbours.{in_groups}
use govisor.Invariant.Graph.{
  IsGraph, in_groups-drop_parent, has_key, has_key-drop_parent, in_group, in_group-drop_parent,
}

-- What a change keeps, the loop keeps.
alter_all_keep {ℓ} :
    {A : Type ℓ} (P : Links → A) (g : Links → Links)
    → ((k : Links) → P (g k) ≡ P k)
    → (cs : List Ref) (l : Ref → Links) (r : Ref) → P (alter_all cs g l r) ≡ P (l r)
unfolding alter_all
alter_all_keep P g h [] l r = refl
alter_all_keep P g h (c ∷ cs) l r =
    alter_all_keep P g h cs (alter l c g) r
    ∙ elim (Bool-cases (c == r)) [ inl same ↦ rw same (h (l r)) | inr other ↦ rw other ]

-- A change that clears a bit if `b`, does so for the services of the list.
alter_all_clear :
    (P : Links → Bool) (b : Bool) (g : Links → Links)
    → ((k : Links) → P (g k) ≡ (if b then false else P k))
    → (cs : List Ref) (l : Ref → Links) (r : Ref)
    → P (alter_all cs g l r) ≡ (if contains r cs then (if b then false else P (l r)) else P (l r))
unfolding alter_all contains
alter_all_clear P b g h [] l r = refl
alter_all_clear P b g h (c ∷ cs) l r =
    alter_all_clear P b g h cs (alter l c g) r ∙ elim (Bool-cases (c == r)) [
      | inl same ↦ rw same (ground (arith, h (l r)))
      | inr other ↦ rw other
    ]

contains-drop_children :
    (s x : Ref) (gs : Groups) (l : Ref → Links) (r : Ref)
    → contains x (drop_children s gs l r).children ≡ (
        if in_groups r gs
        then (if s == x then false else contains x (l r).children)
        else contains x (l r).children)
unfolding drop_children in_groups
contains-drop_children s x [] l r = refl
contains-drop_children s x ((d, p) ∷ gs) l r =
    contains-drop_children s x gs (alter_all p (without_child s) l) r
    ∙ ground (
      arith,
      alter_all_clear (λ k. contains x k.children) (s == x) (without_child s)
          (λ k. contains-remove s x k.children) p l r,
    )

drop_children_keep {ℓ} :
    {A : Type ℓ} (P : Links → A) (s : Ref)
    → ((k : Links) → P (without_child s k) ≡ P k)
    → (gs : Groups) (l : Ref → Links) (r : Ref) → P (drop_children s gs l r) ≡ P (l r)
unfolding drop_children
drop_children_keep P s h [] l r = refl
drop_children_keep P s h ((d, p) ∷ gs) l r =
    drop_children_keep P s h gs (alter_all p (without_child s) l) r
    ∙ alter_all_keep P (without_child s) h p l r

-- What the three changes keep, `unlink` keeps for the others.
pub unlink_keep {ℓ} :
    {A : Type ℓ} (P : Links → A) (s : Ref) (links : Ref → Links)
    → ((k : Links) → P (without_incompat s k) ≡ P k)
    → ((k : Links) → P (without_parent s k) ≡ P k)
    → ((k : Links) → P (without_child s k) ≡ P k)
    → (r : Ref) → (s == r) ≡ false
    → P (unlink s links r) ≡ P (links r)
unfolding unlink
unlink_keep P s links hi hp hc r other = rw other (
    drop_children_keep P s hc (links s).parents _ r
    ∙ alter_all_keep P (without_parent s) hp (links s).children _ r
    ∙ alter_all_keep P (without_incompat s) hi (links s).incompat links r)

-- If `s` is not where the loop does not go, the loop clears it everywhere.
clear_everywhere :
    (P : Ref → Bool) (s x : Ref) (here : Bool)
    → P s ≡ here
    → (if here then (if s == x then false else P x) else P x) ≡ (if s == x then false else P x)
clear_everywhere P s x here e = elim (Bool-cases (s == x)) [
  | inl same ↦ rw same (ground (arith, e, subst (λ k. P k ≡ here) ((==_iff s x).0 same) e))
  | inr other ↦ rw other (ground arith)
]

module _ (props : Ref → Props) (links : Ref → Links) (services : List Ref)
    (g : IsGraph props links services) (s : Ref) where
  abbrev first : Ref → Links
  first = alter_all (links s).incompat (without_incompat s) links

  abbrev second : Ref → Links
  second = alter_all (links s).children (without_parent s) first

  -- Everybody else loses `s`, and only `s`.
  unlink-incompat :
      (r x : Ref)
      → (s == r) ≡ false
      → contains x (unlink s links r).incompat
        ≡ (if s == x then false else contains x (links r).incompat)
  unfolding unlink
  unlink-incompat r x other = rw other (
      drop_children_keep (λ k. contains x k.incompat) s (λ k. refl) (links s).parents second r
      ∙ alter_all_keep (λ k. contains x k.incompat) (without_parent s) (λ k. refl)
          (links s).children first r
      ∙ alter_all_clear (λ k. contains x k.incompat) (s == x) (without_incompat s)
          (λ k. contains-remove s x k.incompat) (links s).incompat links r
      ∙ clear_everywhere (λ k. contains k (links r).incompat) s x _ (sym (g.symmetric s r)))

  unlink-parents :
      (r x : Ref)
      → (s == r) ≡ false
      → in_groups x (unlink s links r).parents
        ≡ (if s == x then false else in_groups x (links r).parents)
  unfolding unlink
  unlink-parents r x other = rw other (
      drop_children_keep (λ k. in_groups x k.parents) s (λ k. refl) (links s).parents second r
      ∙ alter_all_clear (λ k. in_groups x k.parents) (s == x) (without_parent s)
          (λ k. in_groups-drop_parent s x k.parents) (links s).children first r
      ∙ ap (λ k. if contains r (links s).children then (if s == x then false else k) else k)
          (alter_all_keep (λ k. in_groups x k.parents) (without_incompat s) (λ k. refl)
            (links s).incompat links r)
      ∙ clear_everywhere (λ k. in_groups k (links r).parents) s x _ (g.dual s r))

  unlink-group :
      (e : String) (r x : Ref)
      → (s == r) ≡ false
      → in_group e x (unlink s links r).parents ≡ true
      → in_group e x (links r).parents ≡ true
  unfolding unlink
  unlink-group e r x other h =
      let a = rw other at h in
      let b =
        sym (
          drop_children_keep (λ k. in_group e x k.parents) s (λ k. refl) (links s).parents second r
          ∙ alter_all_clear (λ k. in_group e x k.parents) (s == x) (without_parent s)
              (λ k. in_group-drop_parent e s x k.parents) (links s).children first r
          ∙ ap (λ k. if contains r (links s).children then (if s == x then false else k) else k)
              (alter_all_keep (λ k. in_group e x k.parents) (without_incompat s) (λ k. refl)
                (links s).incompat links r))
        ∙ a in
      ground (arith, b)

  unlink-key :
      (e : String) (r : Ref)
      → (s == r) ≡ false
      → has_key e (unlink s links r).parents ≡ has_key e (links r).parents
  unfolding unlink
  unlink-key e r other = rw other (
      drop_children_keep (λ k. has_key e k.parents) s (λ k. refl) (links s).parents second r
      ∙ alter_all_keep (λ k. has_key e k.parents) (without_parent s)
          (λ k. has_key-drop_parent e s k.parents) (links s).children first r
      ∙ alter_all_keep (λ k. has_key e k.parents) (without_incompat s) (λ k. refl)
          (links s).incompat links r)

  unlink-children :
      (r x : Ref)
      → (s == r) ≡ false
      → contains x (unlink s links r).children
        ≡ (if s == x then false else contains x (links r).children)
  unfolding unlink
  unlink-children r x other = rw other (
      contains-drop_children s x (links s).parents second r
      ∙ ap (λ k. if in_groups r (links s).parents then (if s == x then false else k) else k)
          (alter_all_keep (λ k. contains x k.children) (without_parent s) (λ k. refl)
              (links s).children first r
            ∙ alter_all_keep (λ k. contains x k.children) (without_incompat s) (λ k. refl)
                (links s).incompat links r)
      ∙ clear_everywhere (λ k. contains k (links r).children) s x _ (sym (g.dual r s)))

  unlink-managed : (r : Ref) → (s == r) ≡ false → (unlink s links r).managed ≡ (links r).managed
  unfolding unlink
  unlink-managed r other = rw other (
      drop_children_keep (λ k. k.managed) s (λ k. refl) (links s).parents second r
      ∙ alter_all_keep (λ k. k.managed) (without_parent s) (λ k. refl) (links s).children first r
      ∙ alter_all_keep (λ k. k.managed) (without_incompat s) (λ k. refl) (links s).incompat links r)

  -- `s` itself is left with nothing.
  unlink_self : (r : Ref) → (s == r) ≡ true → unlink s links r ≡ no_links
  unfolding unlink
  unlink_self r same = rw same

  pub incompat-unlink :
      (r x : Ref)
      → contains x (unlink s links r).incompat
        ≡ (if s == r then false else (if s == x then false else contains x (links r).incompat))
  unfolding contains
  incompat-unlink r x = elim (Bool-cases (s == r)) [
    | inl same ↦ rw (unlink_self r same, same)
    | inr other ↦ unlink-incompat r x other ∙ rw other
  ]

  parents-unlink :
      (r x : Ref)
      → in_groups x (unlink s links r).parents
        ≡ (if s == r then false else (if s == x then false else in_groups x (links r).parents))
  unfolding in_groups
  parents-unlink r x = elim (Bool-cases (s == r)) [
    | inl same ↦ rw (unlink_self r same, same)
    | inr other ↦ unlink-parents r x other ∙ rw other
  ]

  children-unlink :
      (r x : Ref)
      → contains x (unlink s links r).children
        ≡ (if s == r then false else (if s == x then false else contains x (links r).children))
  unfolding contains
  children-unlink r x = elim (Bool-cases (s == r)) [
    | inl same ↦ rw (unlink_self r same, same)
    | inr other ↦ unlink-children r x other ∙ rw other
  ]

  -- If a graph is in order, then delManager leaves the graph of the other services in order:
  -- every dependency and conflict is seen alike from both ends, and none leads to the service
  -- that was removed.
  pub unlink-IsGraph : IsGraph props (unlink s links) (remove s services)
  unfolding in_group
  unlink-IsGraph = record {
    dual = λ a b. ground (arith, parents-unlink b a, children-unlink a b, g.dual a b);
    inside =
        λ a b h. ground (arith, children-unlink a b, h, g.inside a b, contains-remove s b services);
    parent_inside = λ a b h.
        ground (arith, parents-unlink b a, h, g.parent_inside a b, contains-remove s a services);
    irreflexive = λ a. ground (arith, incompat-unlink a a, g.irreflexive a);
    symmetric = λ a b. ground (arith, incompat-unlink a b, incompat-unlink b a, g.symmetric a b);
    conflict_inside = λ a b h.
        ground (arith, incompat-unlink a b, h, g.conflict_inside a b, contains-remove s b services);
    managed = λ r. elim (Bool-cases (s == r)) [
      | inl same ↦ rw (unlink_self r same) (ground (arith, contains-remove s r services))
      | inr other ↦
          unlink-managed r other ∙ ground (arith, g.managed r, contains-remove s r services)
    ];
    keyed = λ t d m h. ground (arith, unlink-key d t, g.keyed t d, contains-remove s t services);
    via = λ t q d h. elim (Bool-cases (s == t)) [
      | inl same ↦ cc (rw (unlink_self t same) at h)
      | inr other ↦ g.via t q d (unlink-group d t q other h)
    ];
  }
