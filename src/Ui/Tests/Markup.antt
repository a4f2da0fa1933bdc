-- ===== src/Ui/Tests/Markup.antt =====
-- A text bar, and the key bar in it.
use Prim.Native.Char.{Char, code}
use govisor.Common.{String, Bool, true, false, List, [], ◌∷◌, ◌==◌, ◌≡◌, refl, not, if◌then◌else◌}
use govisor.Ui.Bar.{mark_words}
use govisor.Ui.Keys.{Glyph, Markup, highlight_words, open_after, no_word, closed, render-mark_words}

render : Bool → String → List Glyph
render on String.[] = []
render on (String.◌∷◌ c String.[]) = record { char = c; key = on } ∷ []
render on (String.◌∷◌ c (String.◌∷◌ d s)) =
    let plain = render on (String.◌∷◌ d s) in
    let alternate = render true s in
    let normal = render false s in
    let same = render on s in
    if not (code c == b'%')
    then record { char = c; key = on } ∷ plain
    else if code d == b'A'
    then alternate
    else if code d == b'N'
    then normal
    else record { char = d; key = on } ∷ same

plain :
    (on : Bool) (c : Char) (s : String)
    → (code c == b'%') ≡ false
    → render on (String.◌∷◌ c s) ≡ record { char = c; key = on } ∷ render on s
unfolding render
plain on c String.[] h = refl
plain on c (String.◌∷◌ d s) h = rw (h, render) refl

nothing : (on : Bool) → render on "" ≡ []
unfolding render
nothing on = refl

percent :
    (on : Bool) (s : String)
    → render on (String.◌∷◌ "%" (String.◌∷◌ "%" s)) ≡ record { char = "%"; key = on } ∷ render on s
unfolding render
percent on s = refl

alternate : (on : Bool) (s : String) → render on (String.◌∷◌ "%" (String.◌∷◌ "A" s)) ≡ render true s
unfolding render
alternate on s = refl

normal : (on : Bool) (s : String) → render on (String.◌∷◌ "%" (String.◌∷◌ "N" s)) ≡ render false s
unfolding render
normal on s = refl

abbrev text_bar : Markup
text_bar = record {
  render = render;
  render_empty = nothing;
  render_plain = plain;
  render_percent = percent;
  render_alternate = alternate;
  render_normal = normal;
}

quit_closed : open_after false "[Q] Quit" ≡ false
unfolding open_after
quit_closed = refl

load_closed : open_after false "[L] 100% Log" ≡ false
unfolding open_after
load_closed = refl

render-mark_words_example :
    render false (mark_words ("[Q] Quit" ∷ "[L] 100% Log" ∷ []))
    ≡ highlight_words ("[Q] Quit" ∷ "[L] 100% Log" ∷ [])
render-mark_words_example =
    render-mark_words text_bar ("[Q] Quit" ∷ "[L] 100% Log" ∷ [])
      (closed quit_closed (closed load_closed no_word))
