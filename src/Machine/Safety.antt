-- ===== src/Machine/Safety.antt =====
-- Histories of a Manager against the invariant.
use govisor.Common.{◌≡◌, true, ℕ, String, refl, List, [], ◌∷◌, Bool-cases, inl, inr, arith}
use govisor.Common.Refs.{Ref, contains}
use govisor.World.{World, Env, Props, Outcome}
use govisor.Service.Api
use govisor.Manager
use govisor.Machine.{
  Call, add_service, delete_service, enable, disable, restart, clear, check, notify, monitor,
  shutdown, start_monitoring, stop_monitoring, do_notify, step, run, set_property, sane, all_sane,
  new_manager,
}
use govisor.Service.Property.{make_panics, try_set_property}
use govisor.Invariant.Post.{Ensures, ensured, Ensures-bind, Ensures-mono}
use govisor.Invariant.Neighbours.{view, in_groups}
use govisor.Invariant.Graph.{in_group, has_key}
use govisor.Service.Runnable.{runnable}
use govisor.Invariant.Frames.{Fair}
use govisor.Invariant.Quiet.{Inv}
use govisor.Invariant.Calls.{
  Keeps, enable-Keeps, disable-Keeps, restart-Keeps, clear-Keeps, check_service-Keeps,
}
use govisor.Invariant.Property.{set_property-Inv}
use govisor.Invariant.Manager.{
  Safe, add_service-Safe, delete_service-Safe, notify-Safe, monitor_pass-Safe,
}
use govisor.Invariant.Supply.{all_supplied, Inv-all_supplied}
use govisor.Invariant.Shutdown.{shutdown_empties}

-- A new manager satisfies the invariant.
pub new_manager-Inv :
    (props : Ref → Props) (name : String) (now : ℕ) → Inv (view (new_manager props name now))
unfolding new_manager contains in_groups in_group has_key runnable
new_manager-Inv props name now = record {
  graph = record {
    dual = λ s t. refl;
    inside = λ s t h. h;
    parent_inside = λ s t h. h;
    irreflexive = λ s. refl;
    symmetric = λ s t. refl;
    conflict_inside = λ s t h. h;
    managed = λ r. refl;
    keyed = λ t d h k. ground (arith, h);
    via = λ t q d h. ground (arith, h);
  };
  sound = λ r on. ground (arith, on);
  still = λ r. refl;
  healthy = λ r on. refl;
  exclusive = λ s t on m. refl;
  detached = λ r h. refl;
  rates = λ r. refl;
}

pub safe : {v : World} {o : Outcome} → Keeps v o → Safe o
safe k = Ensures-mono k (λ x p. p.inv)

module _ (env : Env) (fair : Fair env) where
  -- For providers whose calls return, with nil or any error, a clock and map orders of any kind
  -- (an order only has to visit just what is in the map): from every state in which the
  -- invariant holds, each call of a Manager or a service (AddService, DeleteService, Enable,
  -- Disable, Restart, Clear, Check, notify, a round of monitor, Shutdown, the switch of
  -- monitoring, and SetProperty but of a nil logger or of a rate limit that is negative or
  -- longer than a slice may be) returns, without a panic or an endless recursion, and keeps it.
  pub step-Safe : (c : Call) (w : World) → Inv (view w) → sane env c ≡ true → Safe (step env c w)
  unfolding sane step try_set_property do_notify Api.check Manager.start_monitoring
      Manager.stop_monitoring
  step-Safe (add_service s) w i ok = add_service-Safe env fair s w i
  step-Safe (delete_service s) w i ok = delete_service-Safe env fair s w i
  step-Safe (enable s) w i ok = safe (enable-Keeps env fair s w i)
  step-Safe (disable s) w i ok = safe (disable-Keeps env fair s w i)
  step-Safe (restart s) w i ok = safe (restart-Keeps env fair s w i)
  step-Safe (clear s) w i ok = safe (clear-Keeps env fair s w i)
  step-Safe (check s) w i ok = elim (Bool-cases (w.links s).managed) [
    | inl member ↦ rw (member, step, Api.check) (safe (check_service-Keeps env fair s w i member))
    | inr outside ↦ rw (outside, step, Api.check) (ensured i)
  ]
  step-Safe (notify s) w i ok = elim (Bool-cases (w.links s).managed) [
    | inl member ↦ rw (member, step, do_notify) (notify-Safe env fair s w i member)
    | inr outside ↦ rw (outside, step, do_notify) (ensured i)
  ]
  step-Safe (set_property s p v) w i ok = elim (Bool-cases (make_panics env p v)) [
    | inl e ↦ ground (arith, e, ok)
    | inr e ↦
        rw (e, step, try_set_property)
          (ensured (set_property-Inv env s p v w i (rw (e, sane) at ok)))
  ]
  step-Safe monitor w i ok = monitor_pass-Safe env fair w i
  step-Safe shutdown w i ok = Ensures-mono (shutdown_empties env fair w i) (λ x p. p.0)
  step-Safe start_monitoring w i ok = ensured i
  step-Safe stop_monitoring w i ok = ensured i

  pub run_from-Safe :
      (cs : List Call) (w : World) → Inv (view w) → all_sane env cs ≡ true → Safe (run env cs w)
  unfolding run all_sane
  run_from-Safe [] w i ok = ensured i
  run_from-Safe (c ∷ cs) w i ok =
      Ensures-bind (step-Safe c w i (ground (arith, ok)))
        (λ x j. run_from-Safe cs x j (ground (arith, ok)))

  -- For providers whose calls return, with nil or any error, a clock and map orders of any kind
  -- (an order only has to visit just what is in the map): every list of calls of a Manager and
  -- its services that sets no nil logger and no rate limit that is negative or longer than a
  -- slice may be, from the state that NewManager makes, returns, without a panic or an endless
  -- recursion, and leaves the invariant: every running service is enabled, has a service that is
  -- up for each of its dependencies and no enabled service that it conflicts with, no two
  -- conflicting services are enabled, and the graph is alike from both ends.
  pub run-Safe :
      (cs : List Call) (props : Ref → Props) (name : String) (now : ℕ)
      → all_sane env cs ≡ true
      → Safe (run env cs (new_manager props name now))
  run-Safe cs props name now ok = run_from-Safe cs _ (new_manager-Inv props name now) ok

  -- For providers whose calls return, with nil or any error, a clock and map orders of any kind
  -- (an order only has to visit just what is in the map): behind every list of calls of a
  -- Manager and its services that sets no nil logger and no rate limit that is negative or
  -- longer than a slice may be, from the state that NewManager makes, the calls have returned,
  -- and for each name that a running service of the manager depends on there is a service of the
  -- manager that matches the name and is enabled, running, not stopping and not failed.
  pub run-supplied :
      (cs : List Call) (props : Ref → Props) (name : String) (now : ℕ)
      → all_sane env cs ≡ true
      → Ensures
          (λ w. all_supplied w.props w.flags w.services w.services ≡ true)
          (run env cs (new_manager props name now))
  run-supplied cs props name now ok =
      Ensures-mono (run-Safe cs props name now ok) (λ w i. Inv-all_supplied (view w) i w.services)
