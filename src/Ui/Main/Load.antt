-- ===== src/Ui/Main/Load.antt =====
-- mpanel.go `update`, which `Draw` calls.
use govisor.Common.{
  ℕ, suc, ◌+◌, ◌-◌, ◌%◌, ◌==◌, ltb, String, str_append, str_eq, Bool, false, not, Option, none,
  some, List, [], ◌∷◌, ◌++◌, if◌then◌else◌, length,
}
use govisor.World.{ℤ, pos, negsuc}
use govisor.Number.{format_uint}
use govisor.Server.Http.{ServiceInfo, second}
use govisor.Client.Http.{Failure, coded, other, message}
use govisor.Util.{status, format_duration, negate}
use govisor.Ui.Bar.{Style, normal, good, warn, bad, set_status, set_style, set_keys}
use govisor.Ui.Events.{Act, show_auth, Item, Screen, service_words}
use govisor.Ui.Main.{MainPanel}

-- The selected service is looked up by its name; the last of that name stands.
unfoldable pub find_from : String → ℕ → List Item → Option (ℕ × Item)
find_from n k [] = none
find_from n k (i ∷ is) =
    let later = find_from n (suc k) is in
    elim later [ some r ↦ some r | none ↦ if str_eq i.info.name n then some (k, i) else none ]

abbrev pub reselect : Option (ℕ × Item) → MainPanel → MainPanel
reselect none m = record m { selected = none }
reselect (some (k, i)) m = record m { selected = some i; cury = pos k }

unfoldable pub preserve : Option Item → MainPanel → MainPanel
unfolding find_from
preserve none m = m
preserve (some s) m = reselect (find_from s.info.name 0 m.items) m

-- `d -= d % time.Second`
abbrev pub whole_seconds : ℤ → ℤ
whole_seconds (pos n) = pos (n - n % second)
whole_seconds (negsuc n) = negate (n + 1 - (n + 1) % second)

unfoldable pub line_of : Screen → ServiceInfo → String
unfolding status format_duration
line_of screen s =
    let d = whole_seconds (screen.since s.time_stamp) in
    str_append (screen.pad_right 20 s.name) (
      str_append " " (
        str_append (screen.pad_right 10 (status s)) (
          str_append " " (
            str_append (screen.pad_left 10 (format_duration d))
              (str_append "   " (screen.pad_right 10 s.status))))))

unfoldable pub style_of : ServiceInfo → Style
style_of s =
    if not s.enabled then normal else if s.failed then bad else if not s.running then warn else good

-- A service in the count of its style.
abbrev pub count : Style → MainPanel → MainPanel
count normal m = record m { ndisabled = m.ndisabled + 1 }
count bad m = record m { nfailed = m.nfailed + 1 }
count warn m = record m { nstopped = m.nstopped + 1 }
count good m = record m { nrunning = m.nrunning + 1 }

-- The lines and styles are stored as they come.
unfoldable pub put_line : Screen → ServiceInfo → MainPanel → MainPanel
unfolding line_of style_of
put_line screen s m =
    let line = line_of screen s in
    let n = length (screen.bytes line) in
    record m {
      width = if ltb m.width n then n else m.width;
      height = m.height + 1;
      lines = m.lines ++ line ∷ [];
      styles = m.styles ++ style_of s ∷ [];
    }

-- One round of the loop.
unfoldable pub add_line : Screen → ServiceInfo → MainPanel → MainPanel
unfolding put_line
add_line screen s m = count (style_of s) (put_line screen s m)

unfoldable pub add_lines : Screen → List Item → MainPanel → MainPanel
unfolding add_line
add_lines screen [] m = m
add_lines screen (i ∷ is) m = add_lines screen is (add_line screen i.info m)

abbrev pub reset : MainPanel → MainPanel
reset m = record m {
  ndisabled = 0;
  nfailed = 0;
  nstopped = 0;
  nrunning = 0;
  height = 0;
  width = 0;
  lines = [];
  styles = [];
}

-- `%6d`, and a text behind it.
abbrev pub column : Screen → ℕ → String → String
column screen n s = str_append (screen.pad_left 6 (format_uint 10 n)) s

unfoldable pub summary : Screen → MainPanel → String
unfolding format_uint
summary screen m = str_append (column screen (length m.items) " Services ") (
    str_append (column screen m.nfailed " Faulted ") (
      str_append (column screen m.nrunning " Running ") (
        str_append (column screen m.nstopped " Standby ") (column screen m.ndisabled " Disabled"))))

unfoldable pub overall : MainPanel → Style
overall m =
    if ltb 0 m.nfailed
    then bad
    else if ltb 0 m.nstopped
    then warn
    else if ltb 0 m.nrunning
    then good
    else normal

unfoldable pub words : Option Item → List String
unfolding service_words
words none = "[Q] Quit" ∷ "[H] Help" ∷ "[L] Log" ∷ []
words (some i) = "[Q] Quit" ∷ "[H] Help" ∷ "[I] Info" ∷ "[L] Log" ∷ service_words i.info

-- The bars.
unfoldable pub tell : Screen → MainPanel → MainPanel
unfolding summary overall words set_keys
tell screen m = record m {
  panel =
      set_keys (words m.selected) (set_style (overall m) (set_status (summary screen m) m.panel));
}

unfoldable pub is_denied : Failure → Bool
is_denied (coded n m) = n == 401
is_denied (other m) = false

abbrev pub load_failed : Failure → MainPanel → MainPanel
load_failed e m = record m {
  panel = set_style bad (set_status (str_append "Cannot load items: " (message e)) m.panel);
  lines = [];
  styles = [];
}

-- `update`, with what `GetItems` returns.
unfoldable pub update : Screen → List Item → Option Failure → MainPanel → MainPanel × List Act
unfolding preserve add_lines tell is_denied message
update screen items none m = (
  tell screen (add_lines screen items (reset (preserve m.selected (record m { items = items })))),
  [],
)
update screen items (some e) m =
    let n = preserve m.selected (record m { items = items }) in
    if is_denied e then (n, show_auth ∷ []) else (load_failed e n, [])
