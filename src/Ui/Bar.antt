-- ===== src/Ui/Bar.antt =====
-- panel.go, statusbar.go, keybar.go: the bars round a panel.
use Prim.Native.Char.{Char, code}
use govisor.Common.{String, Bool, true, false, List, [], ◌∷◌, ◌==◌, not, if◌then◌else◌}

-- The styles of the status bar, and of the lines of the main panel.
pub data Style : Type 0 where
  normal good warn bad : Style

-- A `Panel`: the title, the text of the status bar and its style, and the text of the key bar.
pub record Panel : Type 0 where
  pub title : String
  pub status : String
  pub style : Style
  pub keys : String

abbrev pub new_panel : Panel
new_panel = record { title = " "; status = ""; style = normal; keys = "" }

abbrev pub set_title : String → Panel → Panel
set_title s p = record p { title = s }

abbrev pub set_status : String → Panel → Panel
set_status s p = record p { status = s }

abbrev pub set_style : Style → Panel → Panel
set_style s p = record p { style = s }

-- Whether the next character is between brackets.
abbrev pub inside : Bool → Char → Bool
inside true c = not (code c == b']')
inside false c = code c == b'['

-- One character of a word, before the text that follows it.
abbrev pub mark_char : Bool → Char → String → String
mark_char true c rest =
    if code c == b']'
    then String.◌∷◌ "%" (String.◌∷◌ "N" (String.◌∷◌ c rest))
    else if code c == b'%'
    then String.◌∷◌ "%" (String.◌∷◌ c rest)
    else String.◌∷◌ c rest
mark_char false c rest =
    if code c == b'['
    then String.◌∷◌ c (String.◌∷◌ "%" (String.◌∷◌ "A" rest))
    else if code c == b'%'
    then String.◌∷◌ c (String.◌∷◌ "%" rest)
    else String.◌∷◌ c rest

-- A word, with the text behind it.
unfoldable pub mark : Bool → String → String → String
mark esc String.[] rest = rest
mark esc (String.◌∷◌ c s) rest = mark_char esc c (mark (inside esc c) s rest)

abbrev pub blank_first : String → String → String
blank_first String.[] rest = rest
blank_first (String.◌∷◌ c s) rest = String.◌∷◌ " " rest

-- The words behind the first.
unfoldable pub mark_more : List String → String
unfolding mark
mark_more [] = ""
mark_more (w ∷ ws) = blank_first w (mark false w (mark_more ws))

unfoldable pub mark_words : List String → String
unfolding mark_more
mark_words [] = ""
mark_words (w ∷ ws) = mark false w (mark_more ws)

-- `SetKeys`
unfoldable pub set_keys : List String → Panel → Panel
unfolding mark_words
set_keys ws p = record p { keys = mark_words ws }
