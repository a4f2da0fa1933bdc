-- ===== src/Util/Duration.antt =====
-- util.go `FormatDuration`: what is printed.
use govisor.Common.{ℕ, ◌+◌, ◌*◌, ◌/◌, ◌%◌, ◌<◌, ◌≡◌, refl, arith}
use native.Mathlib.Nat.{mod-lt, div-add-mod'}
use govisor.World.{pos}
use govisor.Server.Http.{second}
use govisor.Util.{minute, hour, hours, minutes, seconds}

-- For a duration that is not negative, the hours, minutes and seconds that FormatDuration prints
-- add up to its whole seconds, and minutes and seconds are below 60.
pub hours-minutes :
    (n : ℕ)
    → (h : ℕ) × (m : ℕ) × (s : ℕ) × (hours (pos n) ≡ pos h)
      × (minutes (pos n) ≡ pos m)
      × (seconds (pos n) ≡ pos s)
      × (n / second ≡ h * 3600 + m * 60 + s)
      × m < 60
      × s < 60
unfolding hours minutes seconds
hours-minutes n =
    let a = div-add-mod' n hour in
    let a' = mod-lt n {m = hour} (omega arith) in
    let b = div-add-mod' (n % hour) minute in
    let b' = mod-lt (n % hour) {m = minute} (omega arith) in
    let c = div-add-mod' n minute in
    let c' = mod-lt n {m = minute} (omega arith) in
    let d = div-add-mod' (n % minute) second in
    let d' = mod-lt (n % minute) {m = second} (omega arith) in
    let e = div-add-mod' n second in
    let e' = mod-lt n {m = second} (omega arith) in
    (
      n / hour,
      n % hour / minute,
      n % minute / second,
      refl,
      refl,
      refl,
      omega (arith, a, a', b, b', c, c', d, d', e, e'),
      omega (arith, a, a', b, b'),
      omega (arith, c, c', d, d'),
    )
