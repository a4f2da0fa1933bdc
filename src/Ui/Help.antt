-- ===== src/Ui/Help.antt =====
-- hpanel.go: the panel with the keys.
use govisor.Common.{[], ◌∷◌, if◌then◌else◌}
use govisor.Ui.Bar.{Panel, set_title, set_keys}
use govisor.Ui.Events.{Key, esc, rune, show_main, Handled, done, passed, letter}

unfoldable pub handle_event : Key → Panel → Handled Panel
handle_event esc h = done h (show_main ∷ [])
handle_event (rune c) h = if letter b'Q' b'q' c then done h (show_main ∷ []) else passed
handle_event k h = passed

-- What `Draw` sets.
unfoldable pub draw : Panel → Panel
unfolding set_keys
draw h = set_title "Help" (set_keys ("[ESC] Main" ∷ []) h)
