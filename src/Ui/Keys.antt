-- ===== src/Ui/Keys.antt =====
-- keybar.go: what the text of the key bar says, by the markup of the library's text bar.
use Prim.Native.Char.{Char, code}
use text.Mathlib.TextEquality.{Char-path}
use govisor.Common.{
  Bool-cases, inl, inr, String, Bool, true, false, List, [], ◌∷◌, ◌++◌, ◌==◌, ◌&&◌, ◌≡◌, refl,
  arith, ap, ◌∙◌,
}
use govisor.Ui.Bar.{inside, mark_char, mark, blank_first, mark_more, mark_words}

-- A character that is shown, and whether in the style of a key.
pub record Glyph : Type 0 where
  pub char : Char
  pub key : Bool

-- The library's text bar, with the style that it is in: `%A` and `%N` change the style, `%%` is a per
-- cent, and any other character is shown.
pub record Markup : Type 0 where
  pub render : Bool → String → List Glyph
  pub render_empty : (on : Bool) → render on "" ≡ []
  pub render_plain :
      (on : Bool) (c : Char) (s : String)
      → (code c == b'%') ≡ false
      → render on (String.◌∷◌ c s) ≡ record { char = c; key = on } ∷ render on s
  pub render_percent :
      (on : Bool) (s : String)
      → render on (String.◌∷◌ "%" (String.◌∷◌ "%" s))
        ≡ record { char = "%"; key = on } ∷ render on s
  pub render_alternate :
      (on : Bool) (s : String) → render on (String.◌∷◌ "%" (String.◌∷◌ "A" s)) ≡ render true s
  pub render_normal :
      (on : Bool) (s : String) → render on (String.◌∷◌ "%" (String.◌∷◌ "N" s)) ≡ render false s

-- What a word is to look like: the characters between brackets in the style of a key.
unfoldable pub highlight : Bool → String → List Glyph
highlight esc String.[] = []
highlight esc (String.◌∷◌ c s) =
    record { char = c; key = esc && inside esc c } ∷ highlight (inside esc c) s

-- Whether a word ends between brackets.
unfoldable pub open_after : Bool → String → Bool
open_after esc String.[] = esc
open_after esc (String.◌∷◌ c s) = open_after (inside esc c) s

-- A blank before a word that is not empty.
abbrev pub gap : String → List Glyph → List Glyph
gap String.[] gs = gs
gap (String.◌∷◌ c s) gs = record { char = " "; key = false } ∷ gs

unfoldable pub highlight_more : List String → List Glyph
unfolding highlight
highlight_more [] = []
highlight_more (w ∷ ws) = gap w (highlight false w ++ highlight_more ws)

unfoldable pub highlight_words : List String → List Glyph
unfolding highlight highlight_more
highlight_words [] = []
highlight_words (w ∷ ws) = highlight false w ++ highlight_more ws

-- Words whose brackets are closed.
pub data Closed : List String → Type 0 where
  no_word : Closed []
  closed :
      {w : String} {ws : List String} → open_after false w ≡ false → Closed ws → Closed (w ∷ ws)

module _ (m : Markup) where
  render-mark_char :
      (esc : Bool) (c : Char) (rest : String)
      → m.render esc (mark_char esc c rest)
        ≡ record { char = c; key = esc && inside esc c } ∷ m.render (inside esc c) rest
  render-mark_char true c rest = elim (Bool-cases (code c == b']')) [
    | inl e ↦
        rw (e, mark_char, inside)
          (m.render_normal true (String.◌∷◌ c rest)
            ∙ m.render_plain false c rest (ground (arith, e)))
    | inr e ↦ elim (Bool-cases (code c == b'%')) [
      | inl f ↦
          let is_percent : c ≡ "%" = Char-path c "%" (ground (arith, f)) in
          rw is_percent (m.render_percent true rest)
      | inr f ↦ rw (e, f, mark_char, inside) (m.render_plain true c rest f)
    ]
  ]
  render-mark_char false c rest = elim (Bool-cases (code c == b'[')) [
    | inl e ↦
        rw (e, mark_char, inside)
          (m.render_plain false c (String.◌∷◌ "%" (String.◌∷◌ "A" rest)) (ground (arith, e))
            ∙ ap (λ gs. record { char = c; key = false } ∷ gs) (m.render_alternate false rest))
    | inr e ↦ elim (Bool-cases (code c == b'%')) [
      | inl f ↦
          let is_percent : c ≡ "%" = Char-path c "%" (ground (arith, f)) in
          rw is_percent (m.render_percent false rest)
      | inr f ↦ rw (e, f, mark_char, inside) (m.render_plain false c rest f)
    ]
  ]

  render-mark :
      (esc : Bool) (w rest : String)
      → m.render esc (mark esc w rest) ≡ highlight esc w ++ m.render (open_after esc w) rest
  unfolding mark highlight open_after
  render-mark esc String.[] rest = refl
  render-mark esc (String.◌∷◌ c s) rest =
      render-mark_char esc c (mark (inside esc c) s rest)
      ∙ ap (λ gs. record { char = c; key = esc && inside esc c } ∷ gs)
          (render-mark (inside esc c) s rest)

  render-gap : (w rest : String) → m.render false (blank_first w rest) ≡ gap w (m.render false rest)
  render-gap String.[] rest = refl
  render-gap (String.◌∷◌ c s) rest = m.render_plain false " " rest refl

  render-closed :
      (w rest : String)
      → open_after false w ≡ false
      → m.render false (mark false w rest) ≡ highlight false w ++ m.render false rest
  render-closed w rest h =
      render-mark false w rest ∙ ap (λ b. highlight false w ++ m.render b rest) h

  render-mark_more :
      (ws : List String) → Closed ws → m.render false (mark_more ws) ≡ highlight_more ws
  unfolding mark_more highlight_more
  render-mark_more [] no_word = m.render_empty false
  render-mark_more (w ∷ ws) (closed h k) =
      render-gap w (mark false w (mark_more ws))
      ∙ ap (gap w) (
          render-closed w (mark_more ws) h
          ∙ ap (λ gs. highlight false w ++ gs) (render-mark_more ws k))

  -- In a text bar in which %A and %N change the style, %% is a per cent and other characters are
  -- shown, the text that SetKeys makes of words whose brackets are closed shows all their
  -- characters, per cents too, just once, with a blank before each word that is not empty but
  -- the first, and in the style of a key just those between brackets.
  pub render-mark_words :
      (ws : List String) → Closed ws → m.render false (mark_words ws) ≡ highlight_words ws
  unfolding mark_words highlight_words
  render-mark_words [] no_word = m.render_empty false
  render-mark_words (w ∷ ws) (closed h k) =
      render-closed w (mark_more ws) h ∙ ap (λ gs. highlight false w ++ gs) (render-mark_more ws k)
