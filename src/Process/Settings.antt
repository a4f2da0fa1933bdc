-- ===== src/Process/Settings.antt =====
-- process.go `SetProperty` and `Property`.
use govisor.Common.{◌≡◌, refl, sym, ap, ◌∙◌, Option, none, some, str_eq, if◌then◌else◌, arith}
use govisor.World.{
  Error, bad_prop_type, bad_prop_name, Property, prop_logger, prop_other, Value, logger_value,
  bool_value, duration_value, string_value,
}
use govisor.Process.State.{Process, Cmd}

-- The properties of a process, and any other name.
pub data Name : Type 0 where
  logger fail_on_exit stop_cmd stop_time directory unknown : Name

-- The name of a property, as a constant of process.go or not.
unfoldable pub named : Property → Name
named prop_logger = logger
named (prop_other n) =
    if str_eq n "_ProcFailOnExit"
    then fail_on_exit
    else if str_eq n "_ProcStopCmd"
    then stop_cmd
    else if str_eq n "_ProcStopTime"
    then stop_time
    else if str_eq n "_ProcDirectory"
    then directory
    else unknown
named p = unknown

-- An `interface{}`: a value that a service knows, or a `*exec.Cmd`.
pub data Setting : Type 0 where
  plain : Value → Setting
  command : Option Cmd → Setting

-- `SetProperty` returns an error, or none and the process; a nil command is read through.
pub data Answer : Type 0 where
  panicked : Answer
  refused : Error → Answer
  set : Process → Answer

unfoldable pub set_named : Name → Setting → Process → Answer
set_named logger (plain (logger_value x)) p = set (record p { logger = x })
set_named logger v p = refused bad_prop_type
set_named fail_on_exit (plain (bool_value b)) p = set (record p { fail_on_exit = b })
set_named fail_on_exit v p = refused bad_prop_type
set_named stop_time (plain (duration_value t)) p = set (record p { stop_time = t })
set_named stop_time v p = refused bad_prop_type
set_named stop_cmd (command none) p = panicked
set_named stop_cmd (command (some c)) p = set (record p { stop_cmd = some c })
set_named stop_cmd v p = refused bad_prop_type
set_named directory (plain (string_value d)) p = set (record p { directory = d })
set_named directory v p = refused bad_prop_type
set_named unknown v p = refused bad_prop_name

unfoldable pub set_property : Property → Setting → Process → Answer
unfolding named set_named
set_property n v p = set_named (named n) v p

unfoldable pub get_named : Name → Process → Option Setting
get_named logger p = some (plain (logger_value p.logger))
get_named fail_on_exit p = some (plain (bool_value p.fail_on_exit))
get_named stop_time p = some (plain (duration_value p.stop_time))
get_named stop_cmd p = some (command p.stop_cmd)
get_named directory p = some (plain (string_value p.directory))
get_named unknown p = none

-- `Property`: none is ErrBadPropName.
unfoldable pub property : Property → Process → Option Setting
unfolding named get_named
property n p = get_named (named n) p

-- What a process keeps that it is set.
data Reads (n : Name) (v : Setting) : Answer → Type 0 where
  stuck : Reads n v panicked
  kept_out : {e : Error} → Reads n v (refused e)
  kept : {q : Process} → get_named n q ≡ some v → Reads n v (set q)

set_named-Reads : (n : Name) (v : Setting) (p : Process) → Reads n v (set_named n v p)
unfolding set_named get_named
set_named-Reads logger (plain (logger_value x)) p = kept refl
set_named-Reads logger v p = kept_out
set_named-Reads fail_on_exit (plain (bool_value b)) p = kept refl
set_named-Reads fail_on_exit v p = kept_out
set_named-Reads stop_time (plain (duration_value t)) p = kept refl
set_named-Reads stop_time v p = kept_out
set_named-Reads stop_cmd (command none) p = stuck
set_named-Reads stop_cmd (command (some c)) p = kept refl
set_named-Reads stop_cmd v p = kept_out
set_named-Reads directory (plain (string_value d)) p = kept refl
set_named-Reads directory v p = kept_out
set_named-Reads unknown v p = kept_out

read_back :
    (n : Name) (v : Setting) (a : Answer) (q : Process)
    → Reads n v a
    → a ≡ set q
    → get_named n q ≡ some v
read_back n v _ q stuck e = ground (arith, e)
read_back n v _ q kept_out e = ground (arith, e)
read_back n v _ q (kept {q = r} h) e = ap (get_named n) (sym (set_inj r q e)) ∙ h
  where
    set_inj : (r q : Process) → set r ≡ set q → r ≡ q
    set_inj r q e = cc

-- If SetProperty of a process succeeds, for any name and value, then Property of that name
-- answers the value.
pub property-set_property :
    (n : Property) (v : Setting) (p q : Process)
    → set_property n v p ≡ set q
    → property n q ≡ some v
unfolding set_property property
property-set_property n v p q e = read_back (named n) v _ q (set_named-Reads (named n) v p) e
