-- ===== src/Ui/Auth.antt =====
-- apanel.go: the panel that asks for a user and a password.
pub mod Typing
pub mod Login
use Prim.Native.Char.{Char}
use govisor.Common.{
  ℕ, ◌-◌, ltb, String, Bool, true, false, not, List, [], ◌∷◌, ◌++◌, map, if◌then◌else◌, length, set,
  drop, replicate,
}
use govisor.Ui.Bar.{Panel, new_panel, bad, set_title, set_status, set_style, set_keys}
use govisor.Ui.Events.{
  Key, esc, enter, tab, backtab, ctrl_u, ctrl_w, backspace, backspace2, rune, Act, quit, show_main,
  login, Handled, done, refused,
}

-- The text of the fields as runes, and which of them is in the style of the focus.
pub record AuthPanel : Type 0 where
  pub passactive : Bool
  pub username : List Char
  pub password : List Char
  pub ufield : List Char
  pub pfield : List Char
  pub ufocus : Bool
  pub pfocus : Bool
  pub panel : Panel

abbrev pub maxlen : ℕ
maxlen = 16

abbrev pub limit : ℕ
limit = 256

-- `NewAuthPanel`
unfoldable pub new_auth_panel : String → AuthPanel
unfolding set_keys
new_auth_panel server = record {
  passactive = false;
  username = [];
  password = [];
  ufield = replicate maxlen " ";
  pfield = replicate maxlen " ";
  ufocus = false;
  pfocus = false;
  panel =
      set_keys ("[ESC] Quit" ∷ [])
        (set_status "Authentication Required" (set_title server new_panel));
}

unfoldable pub reset_fields : AuthPanel → AuthPanel
reset_fields a = record a { passactive = false; username = []; password = [] }

-- `string` of runes.
unfoldable pub to_string : List Char → String
to_string [] = String.[]
to_string (c ∷ cs) = String.◌∷◌ c (to_string cs)

-- All but the last, if there is one.
unfoldable pub remove_last : List Char → List Char
remove_last [] = []
remove_last (c ∷ []) = []
remove_last (c ∷ d ∷ cs) = c ∷ remove_last (d ∷ cs)

unfoldable pub append_rune : Char → List Char → List Char
append_rune c cs = if ltb (length cs) limit then cs ++ c ∷ [] else cs

-- A change of the input that is active.
abbrev pub edit : (List Char → List Char) → AuthPanel → AuthPanel
edit f a =
    if a.passactive
    then record a { password = f a.password }
    else record a { username = f a.username }

abbrev pub next : Bool → AuthPanel → Handled AuthPanel
next true a = done a (login (to_string a.username) (to_string a.password) ∷ show_main ∷ [])
next false a = done (record a { passactive = true }) []

unfoldable pub handle_event : Key → AuthPanel → Handled AuthPanel
unfolding to_string remove_last append_rune
handle_event esc a = done a (quit ∷ [])
handle_event tab a = next a.passactive a
handle_event enter a = next a.passactive a
handle_event backtab a = done (record a { passactive = false }) []
handle_event ctrl_u a = done (edit (λ cs. []) a) []
handle_event ctrl_w a = done (edit (λ cs. []) a) []
handle_event backspace a = done (edit remove_last a) []
handle_event backspace2 a = done (edit remove_last a) []
handle_event (rune c) a = done (edit (append_rune c) a) []
handle_event k a = refused

-- A prompt in a field: its end if it is too long, and blanks behind it if it is too short.
unfoldable pub cut : List Char → List Char
cut cs = if ltb maxlen (length cs) then set (drop (length cs - maxlen) cs) 0 "<" else cs

unfoldable pub fill : List Char → List Char
unfolding cut
fill cs = cut cs ++ replicate (maxlen - length (cut cs)) " "

unfoldable pub cursor : Bool → List Char → List Char
cursor true cs = cs ++ "_" ∷ []
cursor false cs = cs

unfoldable pub update : AuthPanel → AuthPanel
unfolding fill cursor
update a = record a {
  panel = set_style bad a.panel;
  ufield = fill (cursor (not a.passactive) a.username);
  pfield = fill (cursor a.passactive (map (λ c. "*") a.password));
  ufocus = not a.passactive;
  pfocus = a.passactive;
}
