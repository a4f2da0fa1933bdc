-- ===== src/Number.antt =====
-- `strconv` as the code uses it: FormatInt and ParseInt in a base up to 16, and Atoi. An int64 is
-- its bit pattern.
pub mod RoundTrip
use Prim.Native.Char.{Char, code}
use govisor.Common.{
  ℕ, zero, suc, ◌+◌, ◌-◌, ◌*◌, ◌/◌, ◌%◌, ◌^◌, String, Bool, true, false, ◌&&◌, Option, none, some,
  ◌==◌, ltb, leb, if◌then◌else◌,
}

-- What is read: a number, no number at all, or one that is out of range, with the nearest in it.
pub data Read : Type 0 where
  read : ℕ → Read
  syntax : Read
  range : ℕ → Read

-- The number that comes along with the error, if there is one.
unfoldable pub value : Read → ℕ
value (read n) = n
value syntax = 0
value (range n) = n

abbrev pub word : ℕ
word = 2 ^ 64

abbrev pub half : ℕ
half = 2 ^ 63

unfoldable pub digit_char : ℕ → Char
digit_char d =
    if d == 0
    then "0"
    else if d == 1
    then "1"
    else if d == 2
    then "2"
    else if d == 3
    then "3"
    else if d == 4
    then "4"
    else if d == 5
    then "5"
    else if d == 6
    then "6"
    else if d == 7
    then "7"
    else if d == 8
    then "8"
    else if d == 9
    then "9"
    else if d == 10
    then "a"
    else if d == 11
    then "b"
    else if d == 12
    then "c"
    else if d == 13
    then "d"
    else if d == 14
    then "e"
    else "f"

abbrev pub between : ℕ → ℕ → ℕ → Bool
between lo hi c = leb lo c && leb c hi

unfoldable pub digit_value : ℕ → Option ℕ
digit_value c =
    if between b'0' b'9' c
    then some (c - b'0')
    else if between b'a' b'z' c
    then some (c - b'a' + 10)
    else if between b'A' b'Z' c
    then some (c - b'A' + 10)
    else none

-- The sign is off.
abbrev pub positive : Read → Read
positive syntax = syntax
positive (range n) = range (half - 1)
positive (read n) = if ltb n half then read n else range (half - 1)

abbrev pub negative : Read → Read
negative syntax = syntax
negative (range n) = range half
negative (read n) = if leb n half then read ((word - n) % word) else range half

module _ (base : ℕ) where
  -- The digits of `n` before `out`, with at most as many rounds as the fuel says.
  unfoldable pub emit : ℕ → ℕ → String → String
  unfolding digit_char
  emit zero n out = out
  emit (suc f) n out =
      let next = emit f (n / base) (String.◌∷◌ (digit_char (n % base)) out) in
      if n == 0 then out else next

  -- A number is fuel enough for itself.
  unfoldable pub format_uint : ℕ → String
  unfolding emit
  format_uint n = if n == 0 then "0" else emit n n ""

  unfoldable pub format_int : ℕ → String
  unfolding format_uint
  format_int n = if ltb n half then format_uint n else String.◌∷◌ "-" (format_uint (word - n))

  -- A digit that is too large, or a number that does not fit, is refused.
  unfoldable pub scan : String → ℕ → Read
  unfolding digit_value
  scan String.[] n = read n
  scan (String.◌∷◌ c s) n = elim (digit_value (code c)) [
    | none ↦ syntax
    | some d ↦
        if leb base d
        then syntax
        else if leb word (n * base + d)
        then range (word - 1)
        else scan s (n * base + d)
  ]

  unfoldable pub parse_uint : String → Read
  unfolding scan
  parse_uint String.[] = syntax
  parse_uint (String.◌∷◌ c s) = scan (String.◌∷◌ c s) 0

  unfoldable pub parse_int : String → Read
  unfolding parse_uint
  parse_int String.[] = syntax
  parse_int (String.◌∷◌ c s) =
      if code c == b'-'
      then negative (parse_uint s)
      else if code c == b'+'
      then positive (parse_uint s)
      else positive (parse_uint (String.◌∷◌ c s))

-- `strconv.Atoi`, whose error is not looked at.
unfoldable pub atoi : String → ℕ
unfolding parse_int value
atoi s = value (parse_int 10 s)
