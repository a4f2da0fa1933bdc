-- ===== src/Invariant/Newcomer.antt =====
-- service.go `setManager`: a new service, seen from those that run.
use govisor.Common.{
  String, Bool, true, false, ◌≡◌, refl, List, [], ◌∷◌, ◌++◌, arith, ◌==◌, ==_iff, subst, Bool-cases,
  inl, inr, Option, none, some,
}
use govisor.Common.Refs.{
  Ref, contains, insert, contains-insert, contains-cons_self, contains-cons_tail,
}
use govisor.World.{Props, Links, Groups, Flags}
use govisor.Service.Graph.{first_match, matches_any, depend, oppose, link, link_all, add_parent}
use govisor.Service.Runnable.{satisfied, all_satisfied, any_enabled, runnable}
use govisor.Invariant.Neighbours.{runnable_parts, runnable_intro}

module _ (f : Ref → Flags) where
  satisfied-append_one :
      (q : Ref) (ds : List Ref) → satisfied f ds ≡ true → satisfied f (ds ++ (q ∷ [])) ≡ true
  unfolding satisfied
  satisfied-append_one q [] h = ground arith
  satisfied-append_one q (d ∷ ds) h = ground (arith, satisfied-append_one q ds)

  satisfied-insert :
      (q : Ref) (ds : List Ref) → satisfied f ds ≡ true → satisfied f (insert q ds) ≡ true
  unfolding insert
  satisfied-insert q ds h = ground (arith, satisfied-append_one q ds h)

  all_satisfied-add_parent :
      (d : String) (q : Ref) (gs : Groups)
      → all_satisfied f gs ≡ true
      → all_satisfied f (add_parent d q gs) ≡ true
  unfolding all_satisfied add_parent
  all_satisfied-add_parent d q [] h = h
  all_satisfied-add_parent d q ((k, g) ∷ gs) h =
      ground (arith, satisfied-insert q g, all_satisfied-add_parent d q gs)

  any_enabled-mem :
      (cs : List Ref) (c : Ref)
      → any_enabled f cs ≡ false
      → contains c cs ≡ true
      → (f c).enabled ≡ false
  unfolding any_enabled contains
  any_enabled-mem [] c h m = ground arith
  any_enabled-mem (x ∷ cs) c h m = elim (Bool-cases (x == c)) [
    | inl same ↦ subst (λ k. (f k).enabled ≡ false) ((==_iff x c).0 same) (ground arith)
    | inr other ↦ any_enabled-mem cs c (ground arith) (rw other at m)
  ]

  any_enabled-none :
      (cs : List Ref)
      → ((c : Ref) → contains c cs ≡ true → (f c).enabled ≡ false)
      → any_enabled f cs ≡ false
  unfolding any_enabled
  any_enabled-none [] h = refl
  any_enabled-none (c ∷ cs) h = ground (
    arith,
    h c (contains-cons_self c cs),
    any_enabled-none cs (λ x m. h x (contains-cons_tail x c cs m)),
  )

-- The entries of the services other than `s` have gained `s` at most.
pub record Gains (f : Ref → Flags) (s : Ref) (l k : Ref → Links) : Type 0 where
  pub met :
      (r : Ref)
      → (s == r) ≡ false
      → all_satisfied f (l r).parents ≡ true
      → all_satisfied f (k r).parents ≡ true
  pub rivals :
      (r x : Ref)
      → (s == r) ≡ false
      → (s == x) ≡ false
      → contains x (k r).incompat ≡ true
      → contains x (l r).incompat ≡ true

Gains-trans :
    {f : Ref → Flags} {s : Ref} {a b c : Ref → Links}
    → Gains f s a b
    → Gains f s b c
    → Gains f s a c
Gains-trans p q = record {
  met = λ r o h. q.met r o (p.met r o h);
  rivals = λ r x o n h. p.rivals r x o n (q.rivals r x o n h);
}

module _ (f : Ref → Flags) (s : Ref) where
  Gains-depend_on : (t : Ref) (o : Option String) (l : Ref → Links) → Gains f s l (depend t s o l)
  unfolding depend
  Gains-depend_on t none l = record { met = λ r o h. h; rivals = λ r x o n h. h }
  Gains-depend_on t (some d) l = record {
    met = λ r o h. ground (arith, h, all_satisfied-add_parent f d s (l r).parents);
    rivals = λ r x o n h. ground (arith, h);
  }

  Gains-depend : (t : Ref) (o : Option String) (l : Ref → Links) → Gains f s l (depend s t o l)
  unfolding depend
  Gains-depend t none l = record { met = λ r o h. h; rivals = λ r x o n h. h }
  Gains-depend t (some d) l = record {
    met = λ r o h. ground (arith, h, o);
    rivals = λ r x o n h. ground (arith, h);
  }

  Gains-oppose : (t : Ref) (b : Bool) (l : Ref → Links) → Gains f s l (oppose s t b l)
  unfolding oppose
  Gains-oppose t false l = record { met = λ r o h. h; rivals = λ r x o n h. h }
  Gains-oppose t true l = record {
    met = λ r o h. ground (arith, h);
    rivals = λ r x o n h. ground (arith, h, o, n, contains-insert s x (l r).incompat);
  }

  pub Gains-link_all :
      (props : Ref → Props) (ts : List Ref) (l : Ref → Links) → Gains f s l (link_all props s ts l)
  unfolding link_all link
  Gains-link_all props [] l = record { met = λ r o h. h; rivals = λ r x o n h. h }
  Gains-link_all props (t ∷ ts) l =
      Gains-trans (Gains-depend_on t (first_match (props s) (props t).depends) l) (
        Gains-trans (Gains-depend t (first_match (props t) (props s).depends) _) (
          Gains-trans (Gains-oppose t (matches_any (props s) (props t).conflicts) _) (
            Gains-trans (Gains-oppose t (matches_any (props t) (props s).conflicts) _)
              (Gains-link_all props ts _))))

-- So a service that may run still may, if the newcomer is not enabled.
pub runnable-Gains :
    (f : Ref → Flags) (s : Ref) (l k : Ref → Links) (r : Ref)
    → Gains f s l k
    → (f s).enabled ≡ false
    → (s == r) ≡ false
    → runnable f (l r) (f r) ≡ true
    → runnable f (k r) (f r) ≡ true
runnable-Gains f s l k r g off other h =
    let (st, en, sat, free) = runnable_parts f (l r) r h in
    runnable_intro f (k r) r st en (g.met r other sat) (
      any_enabled-none f (k r).incompat λ c m. elim (Bool-cases (s == c)) [
        | inl same ↦ subst (λ x. (f x).enabled ≡ false) ((==_iff s c).0 same) off
        | inr far ↦ any_enabled-mem f (l r).incompat c free (g.rivals r c other far m)
      ])
