-- ===== src/Util/Order.antt =====
-- util.go `Less`: an order that `sort.Sort` can sort by, and how it stands to `Status`.
use govisor.Common.{String, true, false, ◌≡◌, ◌≢◌, refl, arith, str_eq, eq_iff}
use govisor.Server.Http.{ServiceInfo}
use govisor.Util.{status, str_lt, less}

str_lt_self : (s : String) → str_lt s s ≡ false
unfolding str_lt
str_lt_self String.[] = refl
str_lt_self (String.◌∷◌ c s) = ground (arith, str_lt_self s)

str_lt_trans : (r s t : String) → str_lt r s ≡ true → str_lt s t ≡ true → str_lt r t ≡ true
unfolding str_lt
str_lt_trans String.[] String.[] t h k = ground (arith, h)
str_lt_trans String.[] (String.◌∷◌ c s) String.[] h k = ground (arith, k)
str_lt_trans String.[] (String.◌∷◌ c s) (String.◌∷◌ d t) h k = refl
str_lt_trans (String.◌∷◌ b r) String.[] t h k = ground (arith, h)
str_lt_trans (String.◌∷◌ b r) (String.◌∷◌ c s) String.[] h k = ground (arith, k)
str_lt_trans (String.◌∷◌ b r) (String.◌∷◌ c s) (String.◌∷◌ d t) h k =
    ground (arith, str_lt_trans r s t, h, k)

str_le_trans : (r s t : String) → str_lt r s ≡ false → str_lt s t ≡ false → str_lt r t ≡ false
unfolding str_lt
str_le_trans String.[] String.[] t h k = k
str_le_trans String.[] (String.◌∷◌ c s) t h k = ground (arith, h)
str_le_trans (String.◌∷◌ b r) String.[] String.[] h k = refl
str_le_trans (String.◌∷◌ b r) String.[] (String.◌∷◌ d t) h k = ground (arith, k)
str_le_trans (String.◌∷◌ b r) (String.◌∷◌ c s) String.[] h k = refl
str_le_trans (String.◌∷◌ b r) (String.◌∷◌ c s) (String.◌∷◌ d t) h k =
    ground (arith, str_le_trans r s t, h, k)

-- Less is a strict weak order: no service is less than itself, it is transitive, and so is its
-- negation.
pub less-order :
    (a b c : ServiceInfo)
    → (less a a ≡ false)
      × (less a b ≡ true → less b c ≡ true → less a c ≡ true)
      × (less a b ≡ false → less b c ≡ false → less a c ≡ false)
unfolding less
less-order a b c = (
  ground (arith, str_lt_self a.name),
  λ h k. ground (arith, str_lt_trans a.name b.name c.name, h, k),
  λ h k. ground (arith, str_le_trans a.name b.name c.name, h, k),
)

apart : (s t : String) → str_eq s t ≡ false → s ≢ t
apart s t h e = ground (arith, h, eq_iff s t, e)

status-failed : (s : ServiceInfo) → status s ≡ "failed" → s.failed ≡ true
unfolding status
status-failed s h = ground (
  arith,
  h,
  apart "disabled" "failed" refl,
  apart "running" "failed" refl,
  apart "standby" "failed" refl,
)

status-disabled : (s : ServiceInfo) → status s ≡ "disabled" → s.enabled ≡ false
unfolding status
status-disabled s h = ground (
  arith,
  h,
  apart "failed" "disabled" refl,
  apart "running" "disabled" refl,
  apart "standby" "disabled" refl,
)

failed-status : (s : ServiceInfo) → s.failed ≡ true → s.enabled ≡ true → status s ≡ "failed"
unfolding status
failed-status s h k = rw (h, k, status) refl

disabled-status : (s : ServiceInfo) → s.enabled ≡ false → status s ≡ "disabled"
unfolding status
disabled-status s h = rw (h, status) refl

-- For services that are enabled if they have failed, Less puts those whose Status is failed
-- before all others, and those whose Status is disabled behind all others.
pub less-status :
    (a b : ServiceInfo)
    → (a.failed ≡ true → a.enabled ≡ true)
    → (b.failed ≡ true → b.enabled ≡ true)
    → (status a ≡ "failed" → status b ≢ "failed" → less a b ≡ true)
      × (status a ≢ "disabled" → status b ≡ "disabled" → less a b ≡ true)
unfolding less
less-status a b f g = (
  λ h k. ground (arith, status-failed a h, f, g, failed-status b, k),
  λ h k. ground (arith, status-disabled b k, f, g, disabled-status a, h),
)
