-- ===== src/World/Defs.antt =====
-- The state: service.go `Service`, manager.go `Manager`, errors.go, provider.go.
use govisor.Common.{ℕ, String, Bool, Option, List, [], ◌∷◌, ◌==◌, if◌then◌else◌}
use govisor.Common.Refs.{Ref}

-- errors.go; `other` is an error of a provider, by its text.
pub data Error : Type 0 where
  no_manager conflict is_enabled not_running bad_prop_type bad_prop_name bad_prop_value : Error
  prop_read_only rate_limited name_exists : Error
  other : String → Error

-- `e.Error()`
unfoldable pub text : Error → String
text no_manager = "No manager for service"
text conflict = "Conflicting service enabled"
text is_enabled = "Service is enabled"
text not_running = "Service is not running"
text bad_prop_type = "Bad property type"
text bad_prop_name = "Bad property name"
text bad_prop_value = "Bad property value"
text prop_read_only = "Property not changeable"
text rate_limited = "Restarting too quickly"
text name_exists = "Service name already exists"
text (other s) = s

-- An `int` or a `time.Duration`; `negsuc n` is -(n + 1).
pub data ℤ : Type 0 where
  pos : ℕ → ℤ
  negsuc : ℕ → ℤ

-- What a service is: `name`, `desc`, `depends`, `conflicts`, `provides`, `restart`.
pub record Props : Type 0 where
  pub name : String
  pub desc : String
  pub depends : List String
  pub conflicts : List String
  pub provides : List String
  pub restart : Bool

-- `parents map[string]map[*Service]bool`: a group of services for each dependency.
abbrev pub Groups : Type 0
Groups = List (String × List Ref)

-- Its place in the graph; `managed` is `mgr != nil`.
pub record Links : Type 0 where
  pub managed : Bool
  pub parents : Groups
  pub children : List Ref
  pub incompat : List Ref

pub record Flags : Type 0 where
  pub enabled : Bool
  pub running : Bool
  pub stopping : Bool
  pub failed : Bool

-- The restart limiter.
pub record Rate : Type 0 where
  pub starts : ℕ
  pub rate_log : Bool
  pub rate_limit : ℤ
  pub rate_period : ℤ
  pub start_times : List ℕ

-- What is shown of a service; none of it but `reason` is read back by the code.
pub record Info : Type 0 where
  pub err : Option Error
  pub reason : String
  pub stamp : ℕ
  pub serial : ℕ
  pub checking : Bool
  pub logger : Option ℕ
  pub notify : Option ℕ

-- properties.go: the names of the properties; any other name is a provider's own.
pub data Property : Type 0 where
  prop_logger prop_restart prop_rate_limit prop_rate_period prop_name prop_description : Property
  prop_depends prop_conflicts prop_provides prop_notify : Property
  prop_other : String → Property

-- An `interface{}` by its dynamic type; a pointer or a function may be nil.
pub data Value : Type 0 where
  logger_value func_value : Option ℕ → Value
  bool_value : Bool → Value
  int_value duration_value : ℤ → Value
  string_value : String → Value
  strings_value : List String → Value
  other_value : Value

-- What the program does that is seen outside: calls of the provider, and log lines.
pub data Event : Type 0 where
  start_call stop_call check_call : Ref → Event
  service_log : Ref → String → Event
  manager_log : String → Event
  set_call : Ref → Property → Value → Event

-- `tick` counts the readings of the environment, and `trace` has the newest event first.
pub record World : Type 0 where
  pub props : Ref → Props
  pub links : Ref → Links
  pub flags : Ref → Flags
  pub rate : Ref → Rate
  pub info : Ref → Info
  pub services : List Ref
  pub mgr_name : String
  pub mgr_serial : ℕ
  pub list_serial : ℕ
  pub list_stamp : ℕ
  pub create_time : ℕ
  pub update_time : ℕ
  pub monitoring : Bool
  pub cleanup : Bool
  pub tick : ℕ
  pub trace : List Event

-- What the code does not decide: the clock, the answers of the providers, and the order in which
-- Go ranges over a map, each a function of the number of readings so far; and the longest slice
-- that `make` allocates, above which it panics. A call of a provider returns, with nil or an error:
-- one that panics ends the program and is no part of a history (process.go has two such calls, which
-- `Process` models).
pub record Env : Type 0 where
  pub now : ℕ → ℕ
  pub start_result : ℕ → Ref → Option Error
  pub check_result : ℕ → Ref → Option Error
  pub set_result : ℕ → Ref → Property → Value → Option Error
  pub order : ℕ → List Ref → List Ref
  pub longest : ℕ

-- An operation returns, or panics, or the bound on its recursion was too small.
pub data Outcome : Type 0 where
  done : World → Outcome
  panic : Outcome
  spent : Outcome

abbrev pub put {ℓ} : {A : Type ℓ} → (Ref → A) → Ref → A → Ref → A
put f r v x = if r == x then v else f x

infixl 5 ◌>>=◌
abbrev pub ◌>>=◌ : Outcome → (World → Outcome) → Outcome
done w >>= f = f w
panic >>= f = panic
spent >>= f = spent

-- `for r := range l { f(r) }`
unfoldable pub for_each : (Ref → World → Outcome) → List Ref → World → Outcome
for_each f [] w = done w
for_each f (r ∷ rs) w = f r w >>= for_each f rs
