-- ===== src/Invariant/Joined.antt =====
-- service.go `SetProperty`, manager.go `AddService` and `DeleteService` hand out a serial number for
-- what they change.
use native.Mathlib.Nat.{mod-add-mod, mod-mod}
use govisor.Common.{
  str_append, ◌+◌, ◌%◌, ◌==◌, Bool, true, false, String, ◌≡◌, ◌≢◌, ==_iff, refl, sym, ap, ◌∙◌,
  Option, none, some, List, [], ◌∷◌, arith, Bool-cases, Option-cases, inl, inr,
}
use govisor.Common.Refs.{Ref}
use govisor.World.{text, World, Env, Property, Value, Props, Links, Outcome, done, panic, ◌>>=◌}
use govisor.World.Steps.{serial_mod, bump, log_line}
use govisor.Service.Property.{
  failed_line, is_fixed, change, pass_on, settle, set_prop, set_property,
}
use govisor.Service.Graph.{
  depend, oppose, link, link_all, set_manager, del_manager, first_match, matches_any,
}
use govisor.Manager.{log_manager, line, list_changed, add_service, delete_service, name_taken}
use govisor.Invariant.Unlink.{unlink_keep}
use govisor.Invariant.Tracked.{
  same, gone, Tracked, Touched, Marked, Idle-Tracked, Tracked-refl, Tracked-trans, Marked-Tracked,
  Tracked-Touched, Same-trans,
}
use govisor.Invariant.Outcomes.{
  Marked-Tracked_one, Tracks, tracks, panics, Tracks-bind, touched, unseen,
}
use govisor.Invariant.Serials.{bump-Marked}

-- A link changes no manager.
depend-managed :
    (p q : Ref) (o : Option String) (links : Ref → Links) (r : Ref)
    → (depend p q o links r).managed ≡ (links r).managed
unfolding depend
depend-managed p q none links r = refl
depend-managed p q (some d) links r = ground arith

oppose-managed :
    (s t : Ref) (b : Bool) (links : Ref → Links) (r : Ref)
    → (oppose s t b links r).managed ≡ (links r).managed
unfolding oppose
oppose-managed s t false links r = refl
oppose-managed s t true links r = ground arith

link-managed :
    (props : Ref → Props) (s t : Ref) (links : Ref → Links) (r : Ref)
    → (link props s t links r).managed ≡ (links r).managed
unfolding link
link-managed props s t links r =
    let a = first_match (props s) (props t).depends in
    let b = first_match (props t) (props s).depends in
    let c = matches_any (props s) (props t).conflicts in
    let d = matches_any (props t) (props s).conflicts in
    let l1 = depend t s a links in
    let l2 = depend s t b l1 in
    oppose-managed s t d (oppose s t c l2) r
    ∙ oppose-managed s t c l2 r
    ∙ depend-managed s t b l1 r
    ∙ depend-managed t s a links r

link_all-managed :
    (props : Ref → Props) (s : Ref) (ts : List Ref) (links : Ref → Links) (r : Ref)
    → (link_all props s ts links r).managed ≡ (links r).managed
unfolding link_all
link_all-managed props s [] links r = refl
link_all-managed props s (t ∷ ts) links r =
    link_all-managed props s ts (link props s t links) r ∙ link-managed props s t links r

Marked-Touched : (s : Ref) {u v w : World} → Marked 1 s u v → Touched s v w → Marked 1 s u w
Marked-Touched s m t = record {
  mgr = ap (λ n. n % serial_mod) t.mgr ∙ m.mgr;
  clock = omega (arith, t.clock, m.clock);
  others = λ r h. Same-trans (m.others r h) (t.others r h);
  serial = t.serial ∙ m.serial;
}

twice :
    (w : World)
    → ((w.mgr_serial + 1) % serial_mod + 1) % serial_mod ≡ (w.mgr_serial + 2) % serial_mod
twice w = mod-add-mod (w.mgr_serial + 1) serial_mod 1 ∙ ap (λ n. n % serial_mod) (omega arith)

other_of : (s r : Ref) → some r ≢ some s → (s == r) ≡ false
other_of s r h = elim (Bool-cases (s == r)) [
  | inl e ↦ absurd (h (ap some (sym ((==_iff s r).0 e))))
  | inr e ↦ e
]

-- A service that joins leaves the others as they are shown.
data Joins (s : Ref) (w : World) : Outcome → Type 0 where
  turned_down : Joins s w panic
  joins : {x : World} → Tracked (some s) 0 w x → Joins s w (done x)

module _ (env : Env) where
  settle-Touched :
      (s : Ref) (p : Property) (v : Value) (w : World) → Touched s w (settle env s p v w).1
  unfolding settle change pass_on
  settle-Touched s p v w =
      touched s (ground arith) (λ r h. ground (arith, h)) (λ r h. ground (arith, h))
        (λ r h. ground (arith, h)) (ground arith) (ground arith) (ground arith)

  set_prop-Tracks :
      (s : Ref) (p : Property) (v : Value) (w : World) → Tracks w (done (set_prop env s p v w).1)
  unfolding set_prop
  set_prop-Tracks s p v w = elim (Bool-cases (w.links s).managed) [
    | inr e ↦
        rw e (tracks 0 (Tracked-Touched s 0 (Tracked-refl w) (gone e) (settle-Touched s p v w)))
    | inl e ↦ elim (Bool-cases (is_fixed p)) [
      | inl f ↦ rw (e, f) (tracks 0 (Tracked-refl w))
      | inr f ↦
          rw (e, f)
            (tracks 1 (
              Marked-Tracked_one s
                (Marked-Touched s (bump-Marked env s w) (settle-Touched s p v (bump env s w)))))
    ]
  ]

  pub set_property-Tracks :
      (s : Ref) (p : Property) (v : Value) (w : World)
      → Tracks w (done (set_property env s p v w).1)
  unfolding set_property
  set_property-Tracks s p v w = elim (Option-cases (set_prop env s p v w).0) [
    | inl e ↦ rw (e, set_property) (set_prop-Tracks s p v w)
    | inr (x, e) ↦
        rw (e, set_property)
          (Tracks-bind
            {f = λ y.
              done
                (log_line s (failed_line env ((set_prop env s p v w).1.props s).name (text x)) y)}
            (set_prop-Tracks s p v w)
            (λ y. tracks 0 (Idle-Tracked (unseen (omega arith) refl refl refl refl refl))))
  ]

  list_changed-Marked : (s : Ref) (w : World) → Marked 2 s w (list_changed env s w)
  unfolding list_changed
  list_changed-Marked s w = record {
    mgr = ap (λ n. n % serial_mod) (twice w) ∙ mod-mod (w.mgr_serial + 2) serial_mod;
    clock = omega arith;
    others = λ r h. record {
      managed = refl;
      props = refl;
      flags = refl;
      reason = ground (arith, h);
      stamp = ground (arith, h);
      serial = ground (arith, h);
    };
    serial = ground (arith, twice w);
  }

  set_manager-Joins : (s : Ref) (w : World) → Joins s w (set_manager env s w)
  unfolding set_manager
  set_manager-Joins s w = elim (Bool-cases (w.links s).managed) [
    | inl e ↦ rw (e, set_manager) turned_down
    | inr e ↦
        rw (e, set_manager)
          (joins (record {
            handed = ap (λ n. n % serial_mod) (omega arith);
            clock = omega arith;
            each = λ r h.
                let other = other_of s r h in
                same (record {
                  managed = link_all-managed w.props s w.services _ r ∙ ground (arith, other);
                  props = refl;
                  flags = refl;
                  reason = ground (arith, other);
                  stamp = ground (arith, other);
                  serial = ground (arith, other);
                });
          }))
  ]

  del_manager-Tracked : (s : Ref) (w : World) → Tracked (some s) 0 w (del_manager env s w)
  unfolding del_manager
  del_manager-Tracked s w = elim (Bool-cases (w.links s).managed) [
    | inr e ↦ rw (e, del_manager) (Tracked-refl w)
    | inl e ↦
        rw (e, del_manager)
          (record {
            handed = ap (λ n. n % serial_mod) (omega arith);
            clock = omega arith;
            each = λ r h.
                let other = other_of s r h in
                same (record {
                  managed =
                      unlink_keep (λ k. k.managed) s w.links (λ k. refl) (λ k. refl) (λ k. refl) r
                        other;
                  props = refl;
                  flags = refl;
                  reason = ground (arith, other);
                  stamp = ground (arith, other);
                  serial = ground (arith, other);
                });
          })
  ]

  pub add_service-Tracks : (s : Ref) (w : World) → Tracks w (add_service env s w).1
  unfolding add_service
  add_service-Tracks s w = elim (Bool-cases (name_taken w.props (w.props s).name w.services)) [
    | inl e ↦ rw e (tracks 0 (Idle-Tracked (unseen (omega arith) refl refl refl refl refl)))
    | inr e ↦ rw e (after (set_manager env s w) (set_manager-Joins s w))
  ]
    where
      after :
          (o : Outcome)
          → Joins s w o
          → Tracks w (
              o >>= λ w1. done (
                log_manager
                  (line w.mgr_name "Added service"
                    (w.props s).name
                    (str_append ": " (w.props s).desc))
                  (list_changed env s w1)))
      after _ turned_down = panics
      after _ (joins {x} t) = tracks (0 + 2 + 0) (
          Tracked-trans (0 + 2) 0 (Marked-Tracked s 0 2 (omega arith) t (list_changed-Marked s x))
            (Idle-Tracked (unseen (omega arith) refl refl refl refl refl)))

  pub delete_service-Tracks : (s : Ref) (w : World) → Tracks w (delete_service env s w).1
  unfolding delete_service
  delete_service-Tracks s w = elim (Bool-cases (w.flags s).enabled) [
    | inl e ↦ rw e (tracks 0 (Tracked-refl w))
    | inr e ↦
        let x =
          log_manager (line w.mgr_name "Deleted service" (w.props s).name "")
            (del_manager env s w) in
        rw e (
          tracks (0 + 0 + 2) (
            Marked-Tracked s (0 + 0) 2 (omega arith)
              (Tracked-trans 0 0 (del_manager-Tracked s w)
                (Idle-Tracked (unseen (omega arith) refl refl refl refl refl)))
              (list_changed-Marked s x)))
  ]
