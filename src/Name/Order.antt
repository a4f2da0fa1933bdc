-- ===== src/Name/Order.antt =====
-- service.go `serviceMatches`: which names match, by their parts.
use Prim.Native.Char.{char, code}
use govisor.Common.{
  ◌&&◌, Bool-cases, inl, inr, String, Bool, true, false, ◌≡◌, refl, ap, none, some, str_eq,
  if◌then◌else◌, ◌==◌, arith,
}
use govisor.Name.{consp, split_name, service_matches}

-- A base, which has no colon in it.
unfoldable pub is_base : String → Bool
is_base String.[] = true
is_base (String.◌∷◌ c s) = if code c == b':' then false else is_base s

-- `<base>:<variant>`
unfoldable pub with_variant : String → String → String
with_variant String.[] v = String.◌∷◌ (char b':' tt) v
with_variant (String.◌∷◌ c s) v = String.◌∷◌ c (with_variant s v)

split_name-base :
    (x : String) → is_base x ≡ true → split_name x ≡ record { base = x; variant = none }
unfolding split_name is_base
split_name-base String.[] h = refl
split_name-base (String.◌∷◌ c s) h = elim (Bool-cases (code c == b':')) [
  | inl e ↦ ground (arith, e, h)
  | inr e ↦ rw e (ap (consp c) (split_name-base s (rw e at h)))
]

split_name-with_variant :
    (x v : String)
    → is_base x ≡ true
    → split_name (with_variant x v) ≡ record { base = x; variant = some v }
unfolding split_name is_base with_variant
split_name-with_variant String.[] v h = refl
split_name-with_variant (String.◌∷◌ c s) v h = elim (Bool-cases (code c == b':')) [
  | inl e ↦ ground (arith, e, h)
  | inr e ↦ rw e (ap (consp c) (split_name-with_variant s v (rw e at h)))
]

-- For names without a colon (bases) x and y and any texts v and w, with colons or not: x matches
-- y, and also y:w, just if x and y are the same; x:v never matches y; and x:v matches y:w just
-- if x and y are the same and v and w are the same.
pub service_matches-parts :
    (x y v w : String)
    → is_base x ≡ true
    → is_base y ≡ true
    → (service_matches x y ≡ str_eq x y)
      × (service_matches x (with_variant y w) ≡ str_eq x y)
      × (service_matches (with_variant x v) y ≡ false)
      × (service_matches (with_variant x v) (with_variant y w) ≡ (str_eq x y && str_eq v w))
unfolding service_matches
service_matches-parts x y v w a b =
    rw
      (
        split_name-base x a,
        split_name-base y b,
        split_name-with_variant x v a,
        split_name-with_variant y w b,
      )
      (ground arith, ground arith, ground arith, ground arith)
