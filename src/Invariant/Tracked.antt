-- ===== src/Invariant/Tracked.antt =====
-- manager.go `bumpSerial`: how the serial numbers of services follow what is shown of them.
use native.Mathlib.Nat.{mod-add-mod}
use govisor.Common.{
  ℕ, ◌+◌, ◌%◌, ◌≤◌, ◌<◌, ◌==◌, ==_iff, false, ◌≡◌, ◌≢◌, ◌⊎◌, refl, sym, ap, ◌∙◌, subst, Option,
  none, some, arith, Bool-cases, inl, inr,
}
use govisor.Common.Refs.{Ref}
use govisor.World.{World}
use govisor.World.Steps.{serial_mod}

-- What is shown of a service, and its serial number, are the same.
pub record Same (v w : World) (r : Ref) : Type 0 where
  pub managed : (w.links r).managed ≡ (v.links r).managed
  pub props : w.props r ≡ v.props r
  pub flags : w.flags r ≡ v.flags r
  pub reason : (w.info r).reason ≡ (v.info r).reason
  pub stamp : (w.info r).stamp ≡ (v.info r).stamp
  pub serial : (w.info r).serial ≡ (v.info r).serial

-- A service has no manager in the end, or its serial number is one of the `k` that were handed out.
pub data Settled (k : ℕ) (v w : World) (r : Ref) : Type 0 where
  gone : (w.links r).managed ≡ false → Settled k v w r
  fresh :
      (j : ℕ)
      → 0 < j
      → j ≤ k
      → (w.info r).serial ≡ (v.mgr_serial + j) % serial_mod
      → Settled k v w r

-- Or nothing has changed.
pub data Change (k : ℕ) (v w : World) (r : Ref) : Type 0 where
  moved : Settled k v w r → Change k v w r
  same : Same v w r → Change k v w r

-- Between two states `k` serial numbers were handed out, each with a reading of the clock, and the
-- services but one have changed so.
pub record Tracked (x : Option Ref) (k : ℕ) (v w : World) : Type 0 where
  pub handed : w.mgr_serial % serial_mod ≡ (v.mgr_serial + k) % serial_mod
  pub clock : v.tick + k ≤ w.tick
  pub each : (r : Ref) → some r ≢ x → Change k v w r

-- The numbers, modulo 2 ^ 64.
pub mod_step :
    (a b k j : ℕ)
    → b % serial_mod ≡ (a + k) % serial_mod
    → (b + j) % serial_mod ≡ (a + (k + j)) % serial_mod
mod_step a b k j h =
    sym (mod-add-mod b serial_mod j)
    ∙ ap (λ x. (x + j) % serial_mod) h
    ∙ mod-add-mod (a + k) serial_mod j
    ∙ ap (λ x. x % serial_mod) (omega arith)

Same-refl : (v : World) (r : Ref) → Same v v r
Same-refl v r = record {
  managed = refl;
  props = refl;
  flags = refl;
  reason = refl;
  stamp = refl;
  serial = refl;
}

pub Same-trans : {u v w : World} {r : Ref} → Same u v r → Same v w r → Same u w r
Same-trans a b = record {
  managed = b.managed ∙ a.managed;
  props = b.props ∙ a.props;
  flags = b.flags ∙ a.flags;
  reason = b.reason ∙ a.reason;
  stamp = b.stamp ∙ a.stamp;
  serial = b.serial ∙ a.serial;
}

pub Settled-trans :
    {u v w : World} {r : Ref} (k l : ℕ)
    → v.mgr_serial % serial_mod ≡ (u.mgr_serial + k) % serial_mod
    → Settled k u v r
    → Change l v w r
    → Settled (k + l) u w r
Settled-trans k l h c (moved (gone e)) = gone e
Settled-trans {u} {v} {w} k l h c (moved (fresh j a b e)) =
    fresh (k + j) (omega (arith, a)) (omega (arith, b))
      (e ∙ mod_step u.mgr_serial v.mgr_serial k j h)
Settled-trans k l h (gone e) (same s) = gone (s.managed ∙ e)
Settled-trans k l h (fresh j a b e) (same s) = fresh j a (omega (arith, b)) (s.serial ∙ e)

Change-trans :
    {u v w : World} {r : Ref} (k l : ℕ)
    → v.mgr_serial % serial_mod ≡ (u.mgr_serial + k) % serial_mod
    → Change k u v r
    → Change l v w r
    → Change (k + l) u w r
Change-trans k l h (moved c) d = moved (Settled-trans k l h c d)
Change-trans k l h (same s) (same t) = same (Same-trans s t)
Change-trans k l h (same s) (moved (gone e)) = moved (gone e)
Change-trans {u} {v} {w} k l h (same s) (moved (fresh j a b e)) = moved (
    fresh (k + j) (omega (arith, a)) (omega (arith, b))
      (e ∙ mod_step u.mgr_serial v.mgr_serial k j h))

pub Tracked-trans :
    {x : Option Ref} {u v w : World} (k l : ℕ)
    → Tracked x k u v
    → Tracked x l v w
    → Tracked x (k + l) u w
Tracked-trans {u = u} {v = v} {w = w} k l a b = record {
  handed = b.handed ∙ mod_step u.mgr_serial v.mgr_serial k l a.handed;
  clock = omega (arith, a.clock, b.clock);
  each = λ r h. Change-trans k l a.handed (a.each r h) (b.each r h);
}

-- Nothing that is shown has changed, of any service.
pub record Idle (v w : World) : Type 0 where
  pub mgr : w.mgr_serial ≡ v.mgr_serial
  pub clock : v.tick ≤ w.tick
  pub each : (r : Ref) → Same v w r

-- Only a service has changed, and its serial number has not.
pub record Touched (s : Ref) (v w : World) : Type 0 where
  pub mgr : w.mgr_serial ≡ v.mgr_serial
  pub clock : v.tick ≤ w.tick
  pub others : (r : Ref) → (s == r) ≡ false → Same v w r
  pub managed : (w.links s).managed ≡ (v.links s).managed
  pub serial : (w.info s).serial ≡ (v.info s).serial

-- Only a service has changed, and it has the last of the `k` numbers that were handed out.
pub record Marked (k : ℕ) (s : Ref) (v w : World) : Type 0 where
  pub mgr : w.mgr_serial % serial_mod ≡ (v.mgr_serial + k) % serial_mod
  pub clock : v.tick + k ≤ w.tick
  pub others : (r : Ref) → (s == r) ≡ false → Same v w r
  pub serial : (w.info s).serial ≡ (v.mgr_serial + k) % serial_mod

pub Idle-Tracked : {x : Option Ref} {v w : World} → Idle v w → Tracked x 0 v w
Idle-Tracked i = record {
  handed = ap (λ n. n % serial_mod) (i.mgr ∙ omega arith);
  clock = omega (arith, i.clock);
  each = λ r h. same (i.each r);
}

pub Tracked-refl : {x : Option Ref} (v : World) → Tracked x 0 v v
Tracked-refl v = Idle-Tracked (record { mgr = refl; clock = omega arith; each = Same-refl v })

-- A service is one or another.
either : (s r : Ref) → (s ≡ r) ⊎ ((s == r) ≡ false)
either s r = elim (Bool-cases (s == r)) [ inl e ↦ inl ((==_iff s r).0 e) | inr e ↦ inr e ]

pub Touched-Tracked : (s : Ref) {v w : World} → Touched s v w → Tracked (some s) 0 v w
Touched-Tracked s t = record {
  handed = ap (λ n. n % serial_mod) (t.mgr ∙ omega arith);
  clock = omega (arith, t.clock);
  each = λ r h. elim (either s r) [
    | inl e ↦ absurd (h (ap some (sym e)))
    | inr e ↦ same (t.others r e)
  ];
}

-- What was marked as changed gets its number in the end.
pub Marked-Tracked :
    (s : Ref) {u v w : World} (k l : ℕ)
    → 0 < l
    → Tracked (some s) k u v
    → Marked l s v w
    → Tracked none (k + l) u w
Marked-Tracked s {u = u} {v = v} {w = w} k l h a m = record {
  handed = m.mgr ∙ mod_step u.mgr_serial v.mgr_serial k l a.handed;
  clock = omega (arith, a.clock, m.clock);
  each = λ r g. elim (either s r) [
    | inl e ↦ moved (
        fresh (k + l) (omega (arith, h)) (omega arith) (
          subst (λ q. (w.info q).serial ≡ (u.mgr_serial + (k + l)) % serial_mod) e
            (m.serial ∙ mod_step u.mgr_serial v.mgr_serial k l a.handed)))
    | inr e ↦ Change-trans k l a.handed (a.each r (λ p. ground (arith, p, e))) (same (m.others r e))
  ];
}

-- A service that has its number may change again.
Settled-Touched :
    (s : Ref) {u v w : World} (k : ℕ) → Settled k u v s → Touched s v w → Settled k u w s
Settled-Touched s k (gone e) t = gone (t.managed ∙ e)
Settled-Touched s k (fresh j a b e) t = fresh j a b (t.serial ∙ e)

pub Tracked-Touched :
    (s : Ref) {u v w : World} (k : ℕ)
    → Tracked none k u v
    → Settled k u v s
    → Touched s v w
    → Tracked none k u w
Tracked-Touched s {u = u} {w = w} k a c t = record {
  handed = ap (λ n. n % serial_mod) t.mgr ∙ a.handed;
  clock = omega (arith, a.clock, t.clock);
  each = λ r g. elim (either s r) [
    | inl e ↦ moved (subst (λ q. Settled k u w q) e (Settled-Touched s k c t))
    | inr e ↦
        subst (λ n. Change n u w r) (omega arith)
          (Change-trans k 0 a.handed (a.each r g) (same (t.others r e)))
  ];
}

pub weakened : {x : Option Ref} {k : ℕ} {v w : World} → Tracked none k v w → Tracked x k v w
weakened t = record {
  handed = t.handed;
  clock = t.clock;
  each = λ r h. t.each r (λ e. ground (arith, e));
}
