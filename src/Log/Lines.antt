-- ===== src/Log/Lines.antt =====
-- log.go, multilog.go: `strings.Split(strings.Trim(s, "\n"), "\n")`.
use Prim.Native.Char.{Char, code}
use govisor.Common.{
  length, ◌<◌, arith, Bool-cases, inl, inr, String, Bool, ◌==◌, List, [], ◌∷◌, if◌then◌else◌, ◌&&◌,
  str_eq,
}

abbrev is_newline : Char → Bool
is_newline c = code c == b'\n'

unfoldable trim_left : String → String
trim_left String.[] = ""
trim_left (String.◌∷◌ c s) = let rest = trim_left s in if is_newline c then rest else String.◌∷◌ c s

unfoldable trim_right : String → String
trim_right String.[] = ""
trim_right (String.◌∷◌ c s) =
    let rest = trim_right s in if is_newline c && str_eq rest "" then "" else String.◌∷◌ c rest

-- A character in front of the first part.
abbrev pub onto_first : Char → List String → List String
onto_first c [] = String.◌∷◌ c "" ∷ []
onto_first c (x ∷ xs) = String.◌∷◌ c x ∷ xs

unfoldable split_lines : String → List String
split_lines String.[] = "" ∷ []
split_lines (String.◌∷◌ c s) =
    let rest = split_lines s in if is_newline c then "" ∷ rest else onto_first c rest

unfoldable pub lines : String → List String
unfolding trim_left trim_right split_lines
lines s = split_lines (trim_right (trim_left s))

split_lines_some : (s : String) → 0 < length (split_lines s)
unfolding split_lines
split_lines_some String.[] = omega arith
split_lines_some (String.◌∷◌ c s) = elim (Bool-cases (is_newline c)) [
  | inl e ↦ rw e (omega arith)
  | inr e ↦ rw e (onto (split_lines s))
]
  where
    onto : (xs : List String) → 0 < length (onto_first c xs)
    onto [] = omega arith
    onto (x ∷ xs) = omega arith

-- There is always a line.
pub lines_some : (s : String) → 0 < length (lines s)
unfolding lines
lines_some s = split_lines_some (trim_right (trim_left s))
