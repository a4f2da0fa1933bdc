-- ===== src/Invariant/Link.antt =====
-- service.go `setManager` and the graph.
use govisor.Common.{
  String, Bool, true, false, ◌||◌, ◌&&◌, ◌≡◌, refl, List, [], ◌∷◌, arith, if◌then◌else◌, ◌==◌,
  ==_iff, sym, subst, ◌∙◌, Bool-cases, inl, inr, Option, none, some, eq_iff, str_eq,
}
use govisor.Common.Refs.{
  Ref, contains, insert, contains-insert, contains-cons_self, contains-cons_tail,
}
use govisor.World.{Props, Links, put}
use govisor.Service.Graph.{first_match, depend, oppose, link, link_all, fresh_links, fresh_groups}
use govisor.Invariant.Neighbours.{in_groups}
use govisor.Invariant.Graph.{
  IsGraph, mem_str, in_group, in_groups-add_parent, has_key-add_parent, in_group-add_parent,
  in_groups-fresh_groups, has_key-fresh_groups, in_groups_of_group, first_match-mem,
}

module _ (props : Ref → Props) (services : List Ref) where
  abbrev Graph : (Ref → Links) → Type 0
  Graph l = IsGraph props l services

  via_depend :
      (p q : Ref) (d : String) (l : Ref → Links)
      → first_match (props q) (props p).depends ≡ some d
      → Graph l
      → (t x : Ref) (c : String) → in_group c x (depend p q (some d) l t).parents ≡ true
      → first_match (props x) (props t).depends ≡ some c
  unfolding depend
  via_depend p q d l e g t x c h = elim (Bool-cases (p == t)) [
    | inr other ↦ g.via t x c (ground (arith, h, other))
    | inl same ↦
        let h' = in_group-add_parent c d q x (l t).parents (ground (arith, h, same)) in
        elim (Bool-cases ((q == x) && str_eq d c)) [
          | inr far ↦ g.via t x c (ground (arith, h', far))
          | inl near ↦
              let pt : p ≡ t = (==_iff p t).0 same in
              let qx : q ≡ x = ground (arith, near) in
              let dc : d ≡ c = (eq_iff d c).0 (ground (arith, near)) in
              rw (← pt) (rw (← qx) (rw (← dc) e))
        ]
  ]

  depend-IsGraph :
      (p q : Ref) (o : Option String) (l : Ref → Links)
      → contains p services ≡ true
      → contains q services ≡ true
      → first_match (props q) (props p).depends ≡ o
      → Graph l
      → Graph (depend p q o l)
  unfolding depend
  depend-IsGraph p q none l hp hq e g = g
  depend-IsGraph p q (some d) l hp hq e g =
      let key = g.keyed p d hp (first_match-mem (props q) (props p).depends d e) in
      record {
        dual = λ a b. ground (
          arith,
          g.dual a b,
          key,
          in_groups-add_parent d q a (l p).parents,
          in_groups-add_parent d q a (l b).parents,
          contains-insert p b (l a).children,
          ==_iff p b,
          ==_iff q a,
        );
        inside = λ a b h.
            ground (arith, h, g.inside a b, hp, contains-insert p b (l a).children, ==_iff p b);
        parent_inside = λ a b h. ground (
          arith,
          h,
          g.parent_inside a b,
          hq,
          in_groups-add_parent d q a (l b).parents,
          ==_iff q a,
        );
        irreflexive = λ a. ground (arith, g.irreflexive a);
        symmetric = λ a b. ground (arith, g.symmetric a b);
        conflict_inside = λ a b h. ground (arith, h, g.conflict_inside a b);
        managed = λ r. ground (arith, g.managed r);
        keyed = λ t c m h. ground (arith, g.keyed t c m h, has_key-add_parent c d q (l t).parents);
        via = λ t x c h. via_depend p q d l e g t x c h;
      }

  oppose-incompat :
      (s t : Ref) (l : Ref → Links) (r x : Ref)
      → contains x (oppose s t true l r).incompat
        ≡ (if (s == r) && (t == x) || (t == r) && (s == x) then true else contains x (l r).incompat)
  unfolding oppose
  oppose-incompat s t l r x = ground (
    arith,
    contains-insert t x (l r).incompat,
    contains-insert s x (l r).incompat,
    contains-insert s x (insert t (l r).incompat),
  )

  oppose-IsGraph :
      (s t : Ref) (b : Bool) (l : Ref → Links)
      → contains s services ≡ true
      → contains t services ≡ true
      → (s == t) ≡ false
      → Graph l
      → Graph (oppose s t b l)
  unfolding oppose
  oppose-IsGraph s t false l hs ht ne g = g
  oppose-IsGraph s t true l hs ht ne g = record {
    dual = λ a b. ground (arith, g.dual a b);
    inside = λ a b h. ground (arith, h, g.inside a b);
    parent_inside = λ a b h. ground (arith, h, g.parent_inside a b);
    irreflexive = λ a. ground (arith, oppose-incompat s t l a a, g.irreflexive a);
    symmetric = λ a b.
        ground (arith, oppose-incompat s t l a b, oppose-incompat s t l b a, g.symmetric a b);
    conflict_inside = λ a b h. ground (
      arith,
      h,
      oppose-incompat s t l a b,
      g.conflict_inside a b,
      hs,
      ht,
      ==_iff s b,
      ==_iff t b,
    );
    managed = λ r. ground (arith, g.managed r);
    keyed = λ x c m h. ground (arith, g.keyed x c m h);
    via = λ x y c h. g.via x y c (ground (arith, h));
  }

  link-IsGraph :
      (s t : Ref) (l : Ref → Links)
      → contains s services ≡ true
      → contains t services ≡ true
      → (s == t) ≡ false
      → Graph l
      → Graph (link props s t l)
  unfolding link
  link-IsGraph s t l hs ht ne g = oppose-IsGraph s t _ _ hs ht ne (
      oppose-IsGraph s t _ _ hs ht ne
        (depend-IsGraph s t _ _ hs ht refl (depend-IsGraph t s _ _ ht hs refl g)))

  pub link_all-IsGraph :
      (s : Ref) (ts : List Ref) (l : Ref → Links)
      → contains s services ≡ true
      → ((t : Ref) → contains t ts ≡ true → (contains t services ≡ true) × ((s == t) ≡ false))
      → Graph l
      → Graph (link_all props s ts l)
  unfolding link_all
  link_all-IsGraph s [] l hs ht g = g
  link_all-IsGraph s (t ∷ ts) l hs ht g =
      let here = ht t (contains-cons_self t ts) in
      link_all-IsGraph s ts _ hs (λ x m. ht x (contains-cons_tail x t ts m))
        (link-IsGraph s t l hs here.0 here.1 g)

-- A service that is not in the graph gets its groups, all empty.
pub fresh-IsGraph :
    (props : Ref → Props) (links : Ref → Links) (services : List Ref) (s : Ref)
    → IsGraph props links services
    → contains s services ≡ false
    → IsGraph props (put links s (fresh_links (props s))) (insert s services)
unfolding fresh_links contains in_group in_groups
fresh-IsGraph props links services s g out = record {
  dual = λ a b. ground (
    arith,
    g.dual a b,
    g.parent_inside a b,
    g.inside a b,
    out,
    ==_iff s a,
    ==_iff s b,
    in_groups-fresh_groups (props s).depends a [] refl,
  );
  inside = λ a b h. ground (arith, h, g.inside a b, contains-insert s b services);
  parent_inside = λ a b h. ground (
    arith,
    h,
    g.parent_inside a b,
    contains-insert s a services,
    in_groups-fresh_groups (props s).depends a [] refl,
  );
  irreflexive = λ a. ground (arith, g.irreflexive a);
  symmetric = λ a b. ground (
    arith,
    g.symmetric a b,
    g.conflict_inside a b,
    g.conflict_inside b a,
    out,
    ==_iff s a,
    ==_iff s b,
  );
  conflict_inside = λ a b h. ground (arith, h, g.conflict_inside a b, contains-insert s b services);
  managed = λ r. ground (arith, g.managed r, contains-insert s r services);
  keyed = λ t d m h. elim (Bool-cases (s == t)) [
    | inl same ↦
        let h' : mem_str d (props s).depends ≡ true =
          subst (λ k. mem_str d (props k).depends ≡ true) (sym ((==_iff s t).0 same)) h in
        rw same (has_key-fresh_groups (props s).depends d [] ∙ rw h')
    | inr other ↦ rw other (g.keyed t d (ground (arith, m, other, contains-insert s t services)) h)
  ];
  via = λ t q d h. elim (Bool-cases (s == t)) [
    | inr other ↦ g.via t q d (rw other at h)
    | inl same ↦ cc (
      in_groups_of_group d q (fresh_groups (props s).depends []) (rw same at h),
      in_groups-fresh_groups (props s).depends q [] refl,
    )
  ];
}
