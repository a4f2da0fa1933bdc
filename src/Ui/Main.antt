-- ===== src/Ui/Main.antt =====
-- mpanel.go: the panel with all services. Its fields `info`, `name` and `err` are not used.
pub mod Load
pub mod Fits
pub mod Loads
pub mod Runs
pub mod Counts
use Prim.Native.Char.{Char}
use govisor.Common.{
  ℕ, zero, suc, ◌+◌, ◌-◌, ◌%◌, ◌==◌, leb, ltb, String, str_append, str_eq, Bool, true, false, not,
  ◌&&◌, Option, none, some, List, [], ◌∷◌, ◌++◌, if◌then◌else◌, length, get_elem?, map,
}
use govisor.World.{ℤ, pos, negsuc}
use govisor.Number.{format_uint}
use govisor.Server.Http.{ServiceInfo, second}
use govisor.Client.Http.{Failure, coded, other, message}
use govisor.Util.{status, format_duration, negate}
use govisor.Ui.Bar as Bar
use govisor.Ui.Bar.{
  Style, normal, good, warn, bad, Panel, new_panel, set_title, set_status, set_style, set_keys,
}
use govisor.Ui.Events.{
  Key, esc, f1, enter, rune, Act, show_help, show_auth, show_info, show_log, quit, Handled, done,
  passed, Item, Screen, letter, service_rune, service_words, add,
}

pub record MainPanel : Type 0 where
  pub selected : Option Item
  pub ndisabled : ℕ
  pub nfailed : ℕ
  pub nrunning : ℕ
  pub nstopped : ℕ
  pub width : ℕ
  pub height : ℕ
  pub curx : ℤ
  pub cury : ℤ
  pub lines : List String
  pub styles : List Style
  pub items : List Item
  pub panel : Panel

-- `NewMainPanel`
unfoldable pub new_main_panel : String → MainPanel
unfolding set_keys
new_main_panel server = record {
  selected = none;
  ndisabled = 0;
  nfailed = 0;
  nrunning = 0;
  nstopped = 0;
  width = 0;
  height = 0;
  curx = pos 0;
  cury = pos 0;
  lines = [];
  styles = [];
  items = [];
  panel = set_keys ("[Q] Quit" ∷ []) (set_title server new_panel);
}

-- A cursor behind the last is put on the last, and then one before 0 is put on 0.
abbrev pub clamp : ℕ → ℤ → ℕ
clamp n (pos k) = if leb n k then n - 1 else k
clamp n (negsuc k) = 0

-- `updateCursor`; there is none if the index is out of range, where the program ends.
abbrev pub place : Option Item → List Item → ℕ → ℕ → MainPanel → Option MainPanel
place none items x y m = elim (get_elem? items 0) [
  | none ↦ none
  | some i ↦ some (record m { curx = pos 0; cury = pos 0; selected = some i })
]
place (some s) items x y m = elim (get_elem? items y) [
  | none ↦ none
  | some i ↦ some (record m { curx = pos x; cury = pos y; selected = some i })
]

unfoldable pub update_cursor : Bool → MainPanel → Option MainPanel
update_cursor selected m =
    let x = clamp m.width m.curx in
    let y = clamp m.height m.cury in
    if selected && ltb 0 m.height
    then place m.selected m.items x y m
    else some (record m { curx = pos x; cury = pos y; selected = none })

unfoldable pub move_cursor : ℤ → ℤ → MainPanel → Option MainPanel
unfolding update_cursor
move_cursor x y m = update_cursor true (record m { curx = add m.curx x; cury = add m.cury y })

unfoldable pub set_cursor : ℤ → ℤ → MainPanel → Option MainPanel
unfolding update_cursor
set_cursor x y m = update_cursor true (record m { curx = x; cury = y })

unfoldable pub unselect : MainPanel → Option MainPanel
unfolding update_cursor
unselect m = update_cursor false (record m { curx = pos 0; cury = pos 0 })

-- A cell: its byte, its style, and whether that is reversed.
pub record Cell : Type 0 where
  pub char : ℕ
  pub style : Style
  pub reverse : Bool

abbrev pub same_item : Option Item → Item → Bool
same_item none i = false
same_item (some s) i = s.address == i.address

-- The byte at a column, or a blank.
abbrev pub char_at : List ℕ → ℤ → ℕ
char_at bs (negsuc x) = b' '
char_at bs (pos x) = elim (get_elem? bs x) [ none ↦ b' ' | some b ↦ b ]

-- `GetCell`, in a line that is there; there is none if an index is out of range.
unfoldable pub cell_of : Screen → ℤ → ℕ → String → MainPanel → Option Cell
cell_of screen x y line m = elim (get_elem? m.styles y) [
  | none ↦ none
  | some st ↦ elim (get_elem? m.items y) [
    | none ↦ none
    | some i ↦ some (record {
      char = char_at (screen.bytes line) x;
      style = st;
      reverse = same_item m.selected i;
    })
  ]
]

unfoldable pub get_cell : Screen → ℤ → ℤ → MainPanel → Option Cell
unfolding cell_of
get_cell screen x (negsuc y) m = some (record { char = 0; style = normal; reverse = false })
get_cell screen x (pos y) m = elim (get_elem? m.lines y) [
  | none ↦ some (record { char = 0; style = normal; reverse = false })
  | some line ↦ cell_of screen x y line m
]

-- `GetBounds`
unfoldable pub widest : Screen → List String → ℕ
widest screen [] = 0
widest screen (l ∷ ls) =
    let rest = widest screen ls in
    if ltb rest (length (screen.bytes l)) then length (screen.bytes l) else rest

unfoldable pub get_bounds : Screen → MainPanel → ℕ × ℕ
unfolding widest
get_bounds screen m = (widest screen m.lines, length m.lines)

-- `HandleEvent`, at a letter other than Q and H, with a service selected or none.
unfoldable pub selected_rune : Option Item → Char → MainPanel → Handled MainPanel
unfolding service_rune
selected_rune none c m = if letter b'L' b'l' c then done m (show_log "" ∷ []) else passed
selected_rune (some i) c m =
    if letter b'I' b'i' c
    then done m (show_info i.info.name ∷ [])
    else if letter b'L' b'l' c
    then done m (show_log i.info.name ∷ [])
    else service_rune c i.info m

-- `HandleEvent`; there is none where the program ends.
unfoldable pub handle_event : Key → MainPanel → Option (Handled MainPanel)
unfolding unselect selected_rune
handle_event esc m = elim (unselect m) [ none ↦ none | some n ↦ some (done n []) ]
handle_event f1 m = some (done m (show_help ∷ []))
handle_event enter m =
    some (elim m.selected [ none ↦ passed | some i ↦ done m (show_info i.info.name ∷ []) ])
handle_event (rune c) m = some (
    if letter b'Q' b'q' c
    then done m (quit ∷ [])
    else if letter b'H' b'h' c
    then done m (show_help ∷ [])
    else selected_rune m.selected c m)
handle_event k m = some passed
