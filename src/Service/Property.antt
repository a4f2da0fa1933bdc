-- ===== src/Service/Property.antt =====
-- service.go `setProp`, `SetProperty` and `GetProperty`.
use govisor.Common.{
  ltb, ℕ, suc, String, Bool, true, false, Option, none, some, List, [], ◌∷◌, if◌then◌else◌,
  replicate, str_append,
}
use govisor.Common.Refs.{Ref}
use govisor.World.{
  Outcome, done, panic, World, Env, Error, text, bad_prop_type, prop_read_only, Props, Rate, ℤ, pos,
  negsuc, put, Property, prop_logger, prop_restart, prop_rate_limit, prop_rate_period, prop_name,
  prop_description, prop_depends, prop_conflicts, prop_provides, prop_notify, prop_other, Value,
  logger_value, func_value, bool_value, int_value, duration_value, string_value, strings_value,
  set_call,
}
use govisor.World.Steps.{bump, set_rate, set_info, log_line}

-- The properties that are fixed once a service has a manager.
unfoldable pub is_fixed : Property → Bool
is_fixed prop_name = true
is_fixed prop_description = true
is_fixed prop_conflicts = true
is_fixed prop_depends = true
is_fixed prop_provides = true
is_fixed p = false

-- Type assertions.
abbrev as_logger : Value → Option (Option ℕ)
as_logger (logger_value x) = some x
as_logger v = none

abbrev as_func : Value → Option (Option ℕ)
as_func (func_value x) = some x
as_func v = none

abbrev as_bool : Value → Option Bool
as_bool (bool_value b) = some b
as_bool v = none

abbrev as_int : Value → Option ℤ
as_int (int_value n) = some n
as_int v = none

abbrev as_duration : Value → Option ℤ
as_duration (duration_value n) = some n
as_duration v = none

abbrev as_string : Value → Option String
as_string (string_value x) = some x
as_string v = none

abbrev as_strings : Value → Option (List String)
as_strings (strings_value xs) = some xs
as_strings v = none

-- The table for `v` starts: none if `v` is not positive. For a `v` that `make` allocates;
-- `try_set_property` has the panic for one that it does not.
abbrev pub new_table : ℤ → List ℕ
new_table (pos n) = replicate n 0
new_table (negsuc n) = []

abbrev set_props : Ref → Props → World → World
set_props s p w = record w { props = put w.props s p }

-- The limiter with another limit, or with another period.
abbrev limited_to : ℤ → Rate → Rate
limited_to n x = record x { starts = 0; start_times = new_table n; rate_limit = n }

abbrev paced_by : ℤ → Rate → Rate
paced_by n x = record x { starts = 0; rate_period = n }

-- The change of a service by a value of a property, or none if the value is of another type. The
-- logger and the callback are not set here.
unfoldable pub change : Ref → Property → Value → World → Option World
change s prop_restart v w = elim (as_bool v) [
  | none ↦ none
  | some b ↦ some (set_props s (record (w.props s) { restart = b }) w)
]
change s prop_rate_limit v w = elim (as_int v) [
  | none ↦ none
  | some n ↦ some (set_rate s (limited_to n (w.rate s)) w)
]
change s prop_rate_period v w = elim (as_duration v) [
  | none ↦ none
  | some n ↦ some (set_rate s (paced_by n (w.rate s)) w)
]
change s prop_name v w = elim (as_string v) [
  | none ↦ none
  | some x ↦ some (set_props s (record (w.props s) { name = x }) w)
]
change s prop_description v w = elim (as_string v) [
  | none ↦ none
  | some x ↦ some (set_props s (record (w.props s) { desc = x }) w)
]
change s prop_conflicts v w = elim (as_strings v) [
  | none ↦ none
  | some xs ↦ some (set_props s (record (w.props s) { conflicts = xs }) w)
]
change s prop_depends v w = elim (as_strings v) [
  | none ↦ none
  | some xs ↦ some (set_props s (record (w.props s) { depends = xs }) w)
]
change s prop_provides v w = elim (as_strings v) [
  | none ↦ none
  | some xs ↦ some (set_props s (record (w.props s) { provides = xs }) w)
]
change s p v w = none

-- `s.prov.SetProperty(n, v)`
abbrev told : Ref → Property → Value → World → World
told s p v w = record w { trace = set_call s p v ∷ w.trace; tick = suc w.tick }

-- A change that is passed on to the provider.
unfoldable pub pass_on : Ref → Property → Value → World → Option World → Option Error × World
pass_on s p v w none = (some bad_prop_type, w)
pass_on s p v w (some x) = (none, told s p v x)

module _ (env : Env) where
  -- The second switch of `setProp`. The logger that the client set is the field `logger`: DelLogger and
  -- AddLogger (`MultiLog`) keep just it in the list of the MultiLogger, beside the two that the service
  -- itself makes. A nil logger stays in that list, and the next line panics: `is_sane` excludes it.
  unfoldable pub settle : Ref → Property → Value → World → Option Error × World
  unfolding change pass_on
  settle s prop_logger v w = elim (as_logger v) [
    | none ↦ (some bad_prop_type, w)
    | some x ↦
        if (w.flags s).enabled
        then (some prop_read_only, w)
        else pass_on s prop_logger v w (some (set_info s (record (w.info s) { logger = x }) w))
  ]
  settle s prop_notify v w = elim (as_func v) [
    | none ↦ (some bad_prop_type, w)
    | some x ↦ (none, set_info s (record (w.info s) { notify = x }) w)
  ]
  settle s (prop_other n) v w =
      (env.set_result w.tick s (prop_other n) v, told s (prop_other n) v w)
  settle s p v w = pass_on s p v w (change s p v w)

  unfoldable pub set_prop : Ref → Property → Value → World → Option Error × World
  unfolding settle is_fixed
  set_prop s p v w =
      if (w.links s).managed
      then (if is_fixed p then (some prop_read_only, w) else settle s p v (bump env s w))
      else settle s p v w

  abbrev pub failed_line : String → String → String
  failed_line name e = str_append (str_append (str_append "Failed to set property " name) ": ") e

  -- `SetProperty`.
  unfoldable pub set_property : Ref → Property → Value → World → Option Error × World
  unfolding set_prop
  set_property s p v w =
      let (e, w1) = set_prop s p v w in
      elim e [
        | none ↦ (none, w1)
        | some x ↦ (some x, log_line s (failed_line (w1.props s).name (text x)) w1)
      ]

-- `GetProperty` of a name that the service knows; it asks the provider for any other.
unfoldable pub get_property : Ref → Property → World → Option Value
get_property s prop_logger w = some (logger_value (w.info s).logger)
get_property s prop_restart w = some (bool_value (w.props s).restart)
get_property s prop_rate_limit w = some (int_value (w.rate s).rate_limit)
get_property s prop_rate_period w = some (duration_value (w.rate s).rate_period)
get_property s prop_name w = some (string_value (w.props s).name)
get_property s prop_description w = some (string_value (w.props s).desc)
get_property s prop_depends w = some (strings_value (w.props s).depends)
get_property s prop_conflicts w = some (strings_value (w.props s).conflicts)
get_property s prop_provides w = some (strings_value (w.props s).provides)
get_property s prop_notify w = some (func_value (w.info s).notify)
get_property s (prop_other n) w = none

-- Whether `make([]time.Time, v)` panics, since `v` is too large. `SetProperty` of a rate limit comes
-- to it whatever the state.
unfoldable pub make_panics : Env → Property → Value → Bool
make_panics env prop_rate_limit (int_value (pos n)) = ltb env.longest n
make_panics env p v = false

-- `SetProperty` with its end: it returns, with the answer of `set_property`, or it panics.
unfoldable pub try_set_property : Env → Ref → Property → Value → World → Outcome
unfolding make_panics set_property
try_set_property env s p v w =
    if make_panics env p v then panic else done (set_property env s p v w).1

-- Whether a call does not ask for a negative limit.
abbrev pub is_limit : ℤ → Bool
is_limit (pos n) = true
is_limit (negsuc n) = false

abbrev pub is_pointer : Option ℕ → Bool
is_pointer none = false
is_pointer (some x) = true

-- The values after which the service goes on to work: no negative limit, and no nil logger, since
-- the next line that is printed to a nil `*log.Logger` panics.
unfoldable pub is_sane : Property → Value → Bool
is_sane prop_rate_limit (int_value n) = is_limit n
is_sane prop_logger (logger_value x) = is_pointer x
is_sane p v = true
