-- ===== src/Invariant/Switch.antt =====
-- Switching the flags of one service: enabling it, clearing its fault, or readying it for a stop.
use govisor.Common.{
  Bool, true, false, ◌≡◌, refl, sym, ap, subst, ◌∙◌, inl, inr, List, [], ◌∷◌, arith, Bool-cases,
  none, some, ◌==◌, ==_iff, ◌&&◌,
}
use govisor.Common.Refs.{Ref, contains, contains-cons_self, contains-cons_tail}
use govisor.World.{World, Flags, put}
use govisor.Service.Runnable.{any_enabled}
use govisor.Service.Api.{first_enabled}
use govisor.Invariant.Neighbours.{
  View, in_groups, put_relates, all_satisfied-eq, runnable_parts, runnable_mono, runnable_intro,
  all_satisfied_mono,
}
use govisor.Invariant.Frames.{is_active}
use govisor.Invariant.Quiet.{Inv, Exclusive, Ending}

-- What `first_enabled` finds is enabled; if it finds none, none is.
pub first_enabled-none :
    (w : World) (cs : List Ref) (c : Ref)
    → first_enabled w cs ≡ none
    → contains c cs ≡ true
    → (w.flags c).enabled ≡ false
unfolding first_enabled contains
first_enabled-none w [] c e m = ground arith
first_enabled-none w (x ∷ cs) c e m = ground (arith, first_enabled-none w cs c, ==_iff x c)

pub first_enabled-some :
    (w : World) (cs : List Ref) (c : Ref)
    → first_enabled w cs ≡ some c
    → (contains c cs ≡ true) × ((w.flags c).enabled ≡ true)
unfolding first_enabled contains
first_enabled-some w [] c e = ground arith
first_enabled-some w (x ∷ cs) c e = ground (arith, first_enabled-some w cs c, ==_iff x c)

pub any_enabled-false :
    (f : Ref → Flags) (cs : List Ref)
    → ((c : Ref) → contains c cs ≡ true → (f c).enabled ≡ false)
    → any_enabled f cs ≡ false
unfolding any_enabled
any_enabled-false f [] h = refl
any_enabled-false f (c ∷ cs) h = ground (
  arith,
  h c (contains-cons_self c cs),
  any_enabled-false f cs (λ x m. h x (contains-cons_tail x c cs m)),
)

-- The flags of `s` when it is enabled, with its fault kept or cleared.
abbrev pub readied : Ref → Bool → (Ref → Flags) → Ref → Flags
readied s b f = put f s (record (f s) { enabled = true; failed = b })

module _ (s : Ref) (u : View) (i : Inv u) (b : Bool)
    (free : (c : Ref) → contains c (u.links s).incompat ≡ true → (u.flags c).enabled ≡ false)
    (no_new : b ≡ true → (u.flags s).failed ≡ true) (member : (u.links s).managed ≡ true) where
  -- Enabling a service that conflicts with none that is enabled keeps conflicting services apart.
  pub readied-Exclusive : Exclusive u.links (readied s b u.flags)
  readied-Exclusive r c on m = elim (Bool-cases (s == c)) [
    | inl same ↦
        let e : s ≡ c = (==_iff s c).0 same in
        let m' : contains s (u.links r).incompat ≡ true =
          subst (λ k. contains k (u.links r).incompat ≡ true) (sym e) m in
        ground (
          arith,
          free r,
          i.graph.symmetric s r,
          i.graph.irreflexive s,
          m',
          ==_iff s r,
          ap (λ k. contains s (u.links k).incompat) e,
        )
    | inr other ↦ elim (Bool-cases (s == r)) [
      | inl same ↦ rw other (
          free c
            (subst (λ k. contains c (u.links k).incompat ≡ true) (sym ((==_iff s r).0 same)) m))
      | inr far ↦ rw other (i.exclusive r c (rw far at on) m)
    ]
  ]

  -- A service whose conflicts are all disabled may be enabled.
  pub readied-Inv : Inv (record u { flags = readied s b u.flags })
  readied-Inv = record {
    graph = i.graph;
    sound = λ r on.
        let (st, en, sat, free_r) =
          runnable_parts u.flags (u.links r) r (i.sound r (ground (arith, on))) in
        let en' : (readied s b u.flags r).enabled ≡ true = ground (arith, en) in
        runnable_intro (readied s b u.flags) (u.links r) r (ground (arith, st)) en'
          (all_satisfied_mono u.flags (readied s b u.flags) (u.links r).parents
            (λ d up. ground (arith, no_new)) sat)
          (any_enabled-false (readied s b u.flags) (u.links r).incompat
            λ c m. readied-Exclusive r c en' m);
    still = λ r. ground (arith, i.still r, i.still s);
    healthy = λ r on. ground (arith, i.healthy r, i.healthy s, no_new);
    exclusive = readied-Exclusive;
    detached = λ r h. ground (arith, i.detached r h, h, member, ==_iff s r);
    rates = i.rates;
  }

-- A fault may be cleared.
pub cleared-Inv :
    (s : Ref) (u : View)
    → Inv u
    → Inv (record u { flags = put u.flags s (record (u.flags s) { failed = false }) })
cleared-Inv s u i =
    let g : Ref → Flags = put u.flags s (record (u.flags s) { failed = false }) in
    record {
      graph = i.graph;
      sound = λ r on.
          runnable_mono u.flags g (u.links r) r (λ d up. ground arith) (λ c. ground arith)
            (ground arith) (i.sound r (ground (arith, on)));
      still = λ r. ground (arith, i.still r, i.still s);
      healthy = λ r on. ground (arith, i.healthy r, i.healthy s);
      exclusive = λ r c on m. ground (arith, i.exclusive r c (ground (arith, on)) m);
      detached = λ r h. ground (arith, i.detached r h);
      rates = i.rates;
    }

-- The flags of `s` are changed, but it is neither started nor enabled.
pub weakened-Ending :
    (s : Ref) (u : View) (x : Flags)
    → Inv u
    → x.running ≡ (u.flags s).running
    → x.stopping ≡ (u.flags s).stopping
    → (x.enabled ≡ true → (u.flags s).enabled ≡ true)
    → Ending s (record u { flags = put u.flags s x })
unfolding contains
weakened-Ending s u x i run st en = record {
  graph = i.graph;
  sound = λ r on. elim (Bool-cases (s == r)) [
    | inl same ↦ inr (inl (ground (arith, same)))
    | inr other ↦ elim (Bool-cases (is_active (u.flags s) && in_groups s (u.links r).parents)) [
      | inl near ↦ inr (inr (ground (arith, near), ground (arith, near)))
      | inr far ↦
          let (st_r, en_r, sat, free_r) =
            runnable_parts u.flags (u.links r) r (i.sound r (ground (arith, on))) in
          inl (
            runnable_intro g (u.links r) r (ground (arith, st_r)) (ground (arith, en_r))
              (all_satisfied-eq u.flags g (u.links r).parents (λ d m. elim (Bool-cases (s == d)) [
                | inl same ↦
                    let e : s ≡ d = (==_iff s d).0 same in
                    let m' : in_groups s (u.links r).parents ≡ true =
                      subst (λ k. in_groups k (u.links r).parents ≡ true) (sym e) m in
                    rw same (rw (← e) (ground (arith, m', far)))
                | inr apart ↦ rw apart
              ])
                ∙ sat)
              (any_enabled-false g (u.links r).incompat λ c m. low c (i.exclusive r c en_r m)))
    ]
  ];
  still = λ r. ground (arith, i.still r, i.still s);
  healthy = λ r on. elim (Bool-cases (s == r)) [
    | inl same ↦ inl (sym ((==_iff s r).0 same))
    | inr other ↦ inr (rw other (i.healthy r (rw other at on)))
  ];
  exclusive = λ r c on m. low c (i.exclusive r c (high r on) m);
  detached = λ r h. low r (i.detached r h);
  rates = i.rates;
}
  where
    g : Ref → Flags
    g = put u.flags s x

    high : (r : Ref) → (g r).enabled ≡ true → (u.flags r).enabled ≡ true
    high = put_relates (λ a b. a.enabled ≡ true → b.enabled ≡ true) u.flags s x (λ a h. h) en

    low : (r : Ref) → (u.flags r).enabled ≡ false → (g r).enabled ≡ false
    low =
        put_relates (λ a b. b.enabled ≡ false → a.enabled ≡ false) u.flags s x (λ a h. h)
          (λ h. ground (arith, en))
