-- ===== src/Ui/Tests.antt =====
-- The panels of the terminal client at work.
mod Markup
mod Sequences
use Prim.Native.Char.{Char, code}
use govisor.Common.{
  ℕ, zero, suc, ◌+◌, ◌-◌, ◌<◌, ◌≤◌, ◌*◌, String, str_append, Bool, true, false, not, Option, none,
  some, List, [], ◌∷◌, ◌++◌, map, length, ◌≡◌, ◌≢◌, refl, arith, inl, inr, ◌⊎◌,
}
use govisor.World.{ℤ, pos, negsuc}
use govisor.Client.Http.{Failure, coded, other}
use govisor.Server.Http.{ServiceInfo, LogRecord}
use govisor.Ui.Bar.{bad, good}
use govisor.Ui.Events.{Key, enter, tab, esc, rune, Act, show_main, login, Item, Screen}
use govisor.Ui.Main.{MainPanel, new_main_panel, move_cursor, get_cell}
use govisor.Ui.Main.Load.{update, is_denied}
use govisor.Ui.Main.Fits.{Fits, new_main_panel-Fits}
use govisor.Ui.Main.Loads.{update-Fits}
use govisor.Ui.Main.Runs.{Event, loaded, moved, put, looked, pressed, run, run-Fits, load-panics}
use govisor.Ui.Main.Counts.{with_status, update-counts}
use govisor.Ui.Auth as Auth
use govisor.Ui.Auth.{AuthPanel, limit, maxlen, new_auth_panel, reset_fields, to_string}
use govisor.Ui.Auth.Typing.{keys, keys-shown}
use govisor.Ui.Auth.Login.{keys-login}

-- As long as ASCII text.
pub codes : String → List ℕ
codes String.[] = []
codes (String.◌∷◌ c s) = code c ∷ codes s

pub blanks : ℕ → String → String
blanks zero s = s
blanks (suc n) s = String.◌∷◌ " " (blanks n s)

abbrev pub screen : Screen
screen = record {
  pad_left = λ n s. blanks (n - length (codes s)) s;
  pad_right = λ n s. str_append s (blanks (n - length (codes s)) "");
  bytes = codes;
  since = λ t. pos (3600000000000 - t);
  show_time = λ t. "12:00";
  show_stamp = λ t. "Jan  2 12:00:00.000";
}

abbrev service : String → Bool → Bool → Bool → ServiceInfo
service n on up broken = record {
  name = n;
  description = "a service";
  enabled = on;
  running = up;
  failed = broken;
  provides = [];
  depends = "net" ∷ [];
  conflicts = [];
  status = "as told";
  time_stamp = 5;
  serial = "9";
}

abbrev pub web : Item
web = record { address = 40; info = service "web" true true false }

abbrev pub db : Item
db = record { address = 48; info = service "db" true false true }

abbrev pub items : List Item
items = db ∷ web ∷ []

abbrev pub shown : MainPanel
shown = (update screen items none (new_main_panel "host")).0

abbrev busy : List Event
busy =
    loaded items
    ∷ moved (pos 0) (pos 1)
    ∷ looked (pos 2) (pos 1)
    ∷ pressed (rune "r")
    ∷ loaded (web ∷ [])
    ∷ put (pos 3) (pos 9)
    ∷ looked (negsuc 0) (pos 0)
    ∷ pressed esc
    ∷ moved (pos 0) (negsuc 4)
    ∷ []

run-Fits_example : (m : MainPanel) × (run screen busy (new_main_panel "host") ≡ some m) × Fits m
run-Fits_example = run-Fits screen "host" busy

one_item : 1 < length shown.items
unfolding update new_main_panel govisor.Ui.Main.Load.add_lines govisor.Ui.Main.Load.add_line
    govisor.Ui.Main.Load.put_line govisor.Ui.Main.Load.style_of govisor.Ui.Main.Load.tell
    govisor.Ui.Main.Load.preserve
one_item = omega arith

load-panics_example :
    (move_cursor (pos 0) (pos 1) (update screen [] (some (coded 401 "Unauthorized")) shown).0
      ≡ none)
    × (is_denied (coded 401 "Unauthorized") ≡ true
        → get_cell screen
            (pos 2)
            (pos 1)
            (update screen [] (some (coded 401 "Unauthorized")) shown).0
          ≡ none)
load-panics_example =
    load-panics screen (coded 401 "Unauthorized") shown (pos 0) (pos 1) (pos 2) 1
      (update-Fits screen items (new_main_panel "host")) one_item

update-counts_example :
    let n = (update screen items none (new_main_panel "host")).0 in
    (n.ndisabled ≡ with_status "disabled" items)
    × (n.nfailed ≡ with_status "failed" items)
    × (n.nrunning ≡ with_status "running" items)
    × (n.nstopped ≡ with_status "standby" items)
    × (n.ndisabled + n.nfailed + n.nrunning + n.nstopped ≡ length items)
    × (n.panel.style ≡ bad → 0 < with_status "failed" items)
    × (0 < with_status "failed" items → n.panel.style ≡ bad)
    × (n.panel.style ≡ good → n.nrunning + n.ndisabled ≡ length items)
update-counts_example = update-counts screen items (new_main_panel "host")

abbrev user : List Char
user = "j" ∷ "o" ∷ []

abbrev secret : List Char
secret = "x" ∷ "y" ∷ "z" ∷ []

abbrev typed : List Key
typed = map rune user ++ tab ∷ (map rune secret ++ enter ∷ [])

keys-shown_example :
    let a = (keys typed (new_auth_panel "host")).0 in
    (length a.username ≤ limit)
    × (length a.password ≤ limit)
    × (length (Auth.update a).ufield ≡ maxlen)
    × (length (Auth.update a).pfield ≡ maxlen)
    × ((p : List Char)
        → length p ≡ length a.password
        → (Auth.update (record a { password = p })).pfield ≡ (Auth.update a).pfield)
keys-shown_example = keys-shown "host" typed

keys-login_example :
    (keys typed (reset_fields (new_auth_panel "host"))).1
    ≡ login (to_string user) (to_string secret) ∷ show_main ∷ []
keys-login_example = keys-login (new_auth_panel "host") user secret (omega arith) (omega arith)
