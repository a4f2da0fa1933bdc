-- ===== src/Util.antt =====
-- govisor/util/util.go: how services are shown and ordered.
pub mod Order
pub mod Duration
mod Tests
use Prim.Native.Char.{Char, code}
use govisor.Common.{
  ℕ, ◌==◌, ltb, String, Bool, true, false, not, if◌then◌else◌, str_append, suc, zero, ltb, ◌+◌, ◌/◌,
  ◌%◌, ◌*◌,
}
use govisor.World.{ℤ, pos, negsuc}
use govisor.Number.{format_uint}
use govisor.Server.Http.{ServiceInfo, second}

unfoldable pub status : ServiceInfo → String
status s =
    if not s.enabled
    then "disabled"
    else if s.failed
    then "failed"
    else if s.running
    then "running"
    else "standby"

-- `a < b` on strings.
unfoldable pub str_lt : String → String → Bool
str_lt String.[] String.[] = false
str_lt String.[] (String.◌∷◌ d t) = true
str_lt (String.◌∷◌ c s) String.[] = false
str_lt (String.◌∷◌ c s) (String.◌∷◌ d t) =
    let rest = str_lt s t in if code c == code d then rest else ltb (code c) (code d)

-- `a != b` on Booleans.
abbrev pub differ : Bool → Bool → Bool
differ true b = not b
differ false b = b

unfoldable pub less : ServiceInfo → ServiceInfo → Bool
unfolding str_lt
less a b =
    if differ a.failed b.failed
    then a.failed
    else if differ a.enabled b.enabled
    then a.enabled
    else str_lt a.name b.name

abbrev pub minute : ℕ
minute = 60000000000

abbrev pub hour : ℕ
hour = 3600000000000

-- `-n`
abbrev pub negate : ℕ → ℤ
negate zero = pos 0
negate (suc n) = negsuc n

-- The division of Go, which goes towards 0.
abbrev pub quotient : ℤ → ℕ → ℤ
quotient (pos n) k = pos (n / k)
quotient (negsuc n) k = negate ((n + 1) / k)

abbrev pub remainder : ℤ → ℕ → ℤ
remainder (pos n) k = pos (n % k)
remainder (negsuc n) k = negate ((n + 1) % k)

unfoldable pub hours : ℤ → ℤ
hours d = quotient d hour

unfoldable pub minutes : ℤ → ℤ
minutes d = quotient (remainder d hour) minute

unfoldable pub seconds : ℤ → ℤ
seconds d = quotient (remainder d minute) second

-- `%d` and `%02d`
unfoldable pub print_int : ℤ → String
unfolding format_uint
print_int (pos n) = format_uint 10 n
print_int (negsuc n) = str_append "-" (format_uint 10 (n + 1))

unfoldable pub print_two : ℤ → String
unfolding print_int
print_two (pos n) = if ltb n 10 then str_append "0" (print_int (pos n)) else print_int (pos n)
print_two (negsuc n) = print_int (negsuc n)

unfoldable pub format_duration : ℤ → String
unfolding hours minutes seconds print_two
format_duration d =
    str_append (str_append (str_append (print_int (hours d)) ":") (print_two (minutes d)))
      (str_append ":" (print_two (seconds d)))
