-- ===== src/Number/RoundTrip.antt =====
-- ParseInt behind FormatInt.
use Prim.Native.Char.{Char, code}
use native.Mathlib.Nat.{mod-lt, div-add-mod', div-lt_self, mod-eq_of_lt}
use govisor.Common.{
  ℕ, zero, suc, ◌+◌, ◌-◌, ◌*◌, ◌/◌, ◌%◌, ◌≤◌, ◌<◌, ◌⊎◌, String, false, ◌≡◌, ◌≢◌, refl, sym, ap, ◌∙◌,
  some, ◌==◌, ltb, leb, arith, Bool-cases, inl, inr,
}
use govisor.Number.{
  read, syntax, word, half, digit_char, digit_value, emit, format_uint, format_int, scan,
  parse_uint, parse_int,
}

digit_value-char : (d : ℕ) → d < 16 → digit_value (code (digit_char d)) ≡ some d
unfolding digit_value digit_char
digit_value-char zero h = refl
digit_value-char (suc zero) h = refl
digit_value-char (suc (suc zero)) h = refl
digit_value-char (suc (suc (suc zero))) h = refl
digit_value-char (suc (suc (suc (suc zero)))) h = refl
digit_value-char (suc (suc (suc (suc (suc zero))))) h = refl
digit_value-char (suc (suc (suc (suc (suc (suc zero)))))) h = refl
digit_value-char (suc (suc (suc (suc (suc (suc (suc zero))))))) h = refl
digit_value-char (suc (suc (suc (suc (suc (suc (suc (suc zero)))))))) h = refl
digit_value-char (suc (suc (suc (suc (suc (suc (suc (suc (suc zero))))))))) h = refl
digit_value-char (suc (suc (suc (suc (suc (suc (suc (suc (suc (suc zero)))))))))) h = refl
digit_value-char (suc (suc (suc (suc (suc (suc (suc (suc (suc (suc (suc zero))))))))))) h = refl
digit_value-char (suc (suc (suc (suc (suc (suc (suc (suc (suc (suc (suc (suc zero)))))))))))) h =
    refl
digit_value-char (suc (suc (suc (suc (suc (suc (suc (suc (suc (suc (suc (suc (suc zero)))))))))))))
      h =
    refl
digit_value-char
      (suc (suc (suc (suc (suc (suc (suc (suc (suc (suc (suc (suc (suc (suc zero)))))))))))))) h =
    refl
digit_value-char
      (suc (suc (suc (suc (suc (suc (suc (suc (suc (suc (suc (suc (suc (suc (suc zero)))))))))))))))
      h =
    refl
digit_value-char
      (suc
        (suc (suc (suc (suc (suc (suc (suc (suc (suc (suc (suc (suc (suc (suc (suc n))))))))))))))))
      h =
    absurd (omega (arith, h))

module _ (base : ℕ) (two : 2 ≤ base) (sixteen : base ≤ 16) where
  scan_last :
      (n : ℕ) (out : String)
      → n < word
      → scan base (String.◌∷◌ (digit_char (n % base)) out) (n / base) ≡ scan base out n
  unfolding scan
  scan_last n out h =
      let small = mod-lt n {m = base} (omega arith) in
      let whole = div-add-mod' n base in
      let fits : leb word (n / base * base + n % base) ≡ false = ground (arith, whole, h) in
      let digit : leb base (n % base) ≡ false = ground (arith, small) in
      rw (digit_value-char (n % base) (omega (arith, small)), scan, digit, fits)
        (ap (scan base out) whole)

  scan-emit :
      (f n : ℕ) (out : String)
      → n ≤ f
      → n < word
      → scan base (emit base f n out) 0 ≡ scan base out n
  unfolding emit
  scan-emit zero n out b h = ap (scan base out) (omega (arith, b))
  scan-emit (suc f) n out b h = elim (Bool-cases (n == 0)) [
    | inl e ↦ rw (e, emit) (ap (scan base out) (ground (arith, e)))
    | inr e ↦
        let low : n / base ≤ f =
          omega (arith, b, div-lt_self {n = n} {k = base} (ground (arith, e)) (omega arith)) in
        rw (e, emit)
          (scan-emit f (n / base) (String.◌∷◌ (digit_char (n % base)) out) low
              (omega (arith, low, b, h))
            ∙ scan_last n out h)
  ]

  read-syntax : (n : ℕ) → read n ≢ syntax
  read-syntax n e = ground (arith, e)

  -- A number that is read has no sign.
  signed :
      (c : Char) (s : String)
      → code c ≡ b'-' ⊎ code c ≡ b'+'
      → scan base (String.◌∷◌ c s) 0 ≡ syntax
  unfolding scan digit_value
  signed c s (inl e) = rw (e, scan) refl
  signed c s (inr e) = rw (e, scan) refl

  parse_uint-emit :
      (n : ℕ) (s : String) → 0 < n → scan base s 0 ≡ read n → parse_uint base s ≡ read n
  unfolding parse_uint scan
  parse_uint-emit n String.[] p h = ground (arith, h, p)
  parse_uint-emit n (String.◌∷◌ c s) p h = h

  parse_uint-format_uint : (n : ℕ) → n < word → parse_uint base (format_uint base n) ≡ read n
  unfolding format_uint scan parse_uint digit_value
  parse_uint-format_uint n h = elim (Bool-cases (n == 0)) [
    | inl e ↦ rw (e, format_uint) (ground (arith, two, e))
    | inr e ↦
        rw (e, format_uint)
          (parse_uint-emit n (emit base n n "") (ground (arith, e))
            (scan-emit n n "" (omega arith) h))
  ]

  parse_int-parse_uint :
      (n : ℕ) (s : String) → n < half → parse_uint base s ≡ read n → parse_int base s ≡ read n
  unfolding parse_int parse_uint
  parse_int-parse_uint n String.[] p h = h
  parse_int-parse_uint n (String.◌∷◌ c s) p h =
      let free = λ (e : code c ≡ b'-' ⊎ code c ≡ b'+').
        absurd {A = parse_int base (String.◌∷◌ c s) ≡ read n}
          (read-syntax n (sym h ∙ signed c s e)) in
      elim (Bool-cases (code c == b'-')) [
        | inl e ↦ free (inl (ground (arith, e)))
        | inr e ↦ elim (Bool-cases (code c == b'+')) [
          | inl f ↦ free (inr (ground (arith, f)))
          | inr f ↦ rw (e, f, h) (ground (arith, p))
        ]
      ]

  pub parse_int-format_int : (n : ℕ) → n < word → parse_int base (format_int base n) ≡ read n
  unfolding format_int parse_int
  parse_int-format_int n h = elim (Bool-cases (ltb n half)) [
    | inl e ↦
        rw (e, format_int)
          (parse_int-parse_uint n (format_uint base n) (ground (arith, e))
            (parse_uint-format_uint n h))
    | inr e ↦
        rw (e, format_int)
          (rw (parse_uint-format_uint (word - n) (ground (arith, e, h)))
            (ground (arith, e, h, mod-eq_of_lt {n = n} {m = word} h)))
  ]
