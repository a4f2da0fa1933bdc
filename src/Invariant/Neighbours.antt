-- ===== src/Invariant/Neighbours.antt =====
-- `runnable` reads the flags of the neighbours only, and `can_run` returns it and changes no column.
use mathlib.Core.Path.{ap₂}
use govisor.Common.{
  Bool, true, false, ◌≡◌, refl, List, [], ◌∷◌, arith, if◌then◌else◌, Bool-cases, inl, inr, ◌==◌,
  ==_iff, subst,
}
use govisor.Common.Refs.{Ref, contains, contains-cons_self, contains-cons_tail}
use govisor.World.{World, Env, Flags, Links, Groups, Props, Rate, put}
use govisor.Service.Runnable.{
  is_up, satisfied, all_satisfied, any_enabled, runnable, note_unmet, can_run,
}

-- The columns of a world that later steps depend on.
pub record View : Type 0 where
  pub props : Ref → Props
  pub links : Ref → Links
  pub flags : Ref → Flags
  pub rate : Ref → Rate
  pub services : List Ref

abbrev pub view : World → View
view w = record {
  props = w.props;
  links = w.links;
  flags = w.flags;
  rate = w.rate;
  services = w.services;
}

-- Whether a service is among the providers of some dependency.
unfoldable pub in_groups : Ref → Groups → Bool
in_groups d [] = false
in_groups d ((k, g) ∷ gs) = if contains d g then true else in_groups d gs

module _ (f g : Ref → Flags) where
  satisfied-eq :
      (ds : List Ref)
      → ((d : Ref) → contains d ds ≡ true → is_up (g d) ≡ is_up (f d))
      → satisfied g ds ≡ satisfied f ds
  unfolding satisfied
  satisfied-eq [] h = refl
  satisfied-eq (d ∷ ds) h =
      ap₂ (λ b r. if b then true else r) (h d (contains-cons_self d ds))
        (satisfied-eq ds (λ x m. h x (contains-cons_tail x d ds m)))

  satisfied_mono :
      (ds : List Ref)
      → ((d : Ref) → is_up (f d) ≡ true → is_up (g d) ≡ true)
      → satisfied f ds ≡ true
      → satisfied g ds ≡ true
  unfolding satisfied
  satisfied_mono [] h e = e
  satisfied_mono (d ∷ ds) h e = elim (Bool-cases (is_up (f d))) [
    | inl up ↦ rw (h d up)
    | inr down ↦ ground (arith, satisfied_mono ds h (rw down at e))
  ]

  pub all_satisfied-eq :
      (gs : Groups)
      → ((d : Ref) → in_groups d gs ≡ true → is_up (g d) ≡ is_up (f d))
      → all_satisfied g gs ≡ all_satisfied f gs
  unfolding all_satisfied in_groups
  all_satisfied-eq [] h = refl
  all_satisfied-eq ((k, ds) ∷ gs) h =
      ap₂ (λ b r. if b then r else false) (satisfied-eq ds (λ x m. h x (rw m)))
        (all_satisfied-eq gs (λ x m. h x (ground arith)))

  pub all_satisfied_mono :
      (gs : Groups)
      → ((d : Ref) → is_up (f d) ≡ true → is_up (g d) ≡ true)
      → all_satisfied f gs ≡ true
      → all_satisfied g gs ≡ true
  unfolding all_satisfied
  all_satisfied_mono [] h e = e
  all_satisfied_mono ((k, ds) ∷ gs) h e = elim (Bool-cases (satisfied f ds)) [
    | inl sat ↦ rw (satisfied_mono ds h sat) (all_satisfied_mono gs h (rw sat at e))
    | inr not_sat ↦ ground arith
  ]

  any_enabled-eq :
      (cs : List Ref)
      → ((c : Ref) → (g c).enabled ≡ (f c).enabled)
      → any_enabled g cs ≡ any_enabled f cs
  unfolding any_enabled
  any_enabled-eq [] h = refl
  any_enabled-eq (c ∷ cs) h = ground (arith, h c, any_enabled-eq cs h)

  -- A service whose providers keep their state is as runnable as before.
  pub runnable-eq :
      (l : Links) (r : Ref)
      → ((d : Ref) → in_groups d l.parents ≡ true → is_up (g d) ≡ is_up (f d))
      → ((c : Ref) → (g c).enabled ≡ (f c).enabled)
      → (g r).stopping ≡ (f r).stopping
      → runnable g l (g r) ≡ runnable f l (f r)
  unfolding runnable
  runnable-eq l r up en st =
      ground (arith, all_satisfied-eq l.parents up, any_enabled-eq l.incompat en, en r)

  -- A service stays runnable while its providers stay up.
  pub runnable_mono :
      (l : Links) (r : Ref)
      → ((d : Ref) → is_up (f d) ≡ true → is_up (g d) ≡ true)
      → ((c : Ref) → (g c).enabled ≡ (f c).enabled)
      → (g r).stopping ≡ (f r).stopping
      → runnable f l (f r) ≡ true
      → runnable g l (g r) ≡ true
  unfolding runnable
  runnable_mono l r up en st h =
      ground (arith, all_satisfied_mono l.parents up, any_enabled-eq l.incompat en, en r)

pub view-can_run : (env : Env) (s : Ref) (w : World) → view (can_run env s w).1 ≡ view w
unfolding can_run note_unmet
view-can_run env s w = ground arith

pub can_run-runnable :
    (env : Env) (s : Ref) (w : World)
    → (can_run env s w).0 ≡ runnable w.flags (w.links s) (w.flags s)
unfolding can_run runnable
can_run-runnable env s w = ground arith

pub runnable_parts :
    (f : Ref → Flags) (l : Links) (r : Ref)
    → runnable f l (f r) ≡ true
    → ((f r).stopping ≡ false)
      × ((f r).enabled ≡ true)
      × (all_satisfied f l.parents ≡ true)
      × (any_enabled f l.incompat ≡ false)
unfolding runnable
runnable_parts f l r h = (ground arith, ground arith, ground arith, ground arith)

pub runnable_intro :
    (f : Ref → Flags) (l : Links) (r : Ref)
    → (f r).stopping ≡ false
    → (f r).enabled ≡ true
    → all_satisfied f l.parents ≡ true
    → any_enabled f l.incompat ≡ false
    → runnable f l (f r) ≡ true
unfolding runnable
runnable_intro f l r a b c d = ground arith

-- What relates the old and the new flags of `s` relates them everywhere, if it is reflexive.
pub put_relates :
    (R : Flags → Flags → Type 0) (f : Ref → Flags) (s : Ref) (x : Flags)
    → ((g : Flags) → R g g)
    → R x (f s)
    → (r : Ref) → R (put f s x r) (f r)
put_relates R f s x same h r = elim (Bool-cases (s == r)) [
  | inl e ↦ rw e (subst (λ k. R x (f k)) ((==_iff s r).0 e) h)
  | inr e ↦ rw e (same (f r))
]
