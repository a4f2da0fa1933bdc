-- ===== src/Name.antt =====
-- service.go: names `<base>` or `<base>:<variant>`, and when one matches another.
pub mod Order
mod Tests
use Prim.Native.Char.{Char, code}
use govisor.Common.{String}
use govisor.Common.{Bool, true, false, ◌==◌, str_eq, if◌then◌else◌, Option, none, some}

-- `strings.SplitN(s, ":", 2)`: the part before the first colon, and the part behind it, if any.
pub record Parts : Type 0 where
  pub base : String
  pub variant : Option String

abbrev pub consp : Char → Parts → Parts
consp c p = record { base = String.◌∷◌ c p.base; variant = p.variant }

unfoldable pub split_name : String → Parts
split_name String.[] = record { base = ""; variant = none }
split_name (String.◌∷◌ c s) =
    if code c == b':' then record { base = ""; variant = some s } else consp c (split_name s)

abbrev variant_matches : Option String → Option String → Bool
variant_matches none v = true
variant_matches (some v) none = false
variant_matches (some v) (some w) = str_eq v w

unfoldable pub service_matches : String → String → Bool
unfolding split_name
service_matches s1 s2 =
    let a1 = split_name s1 in
    let a2 = split_name s2 in
    if str_eq a1.base a2.base then variant_matches a1.variant a2.variant else false
