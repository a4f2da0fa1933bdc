-- ===== src/Machine/Tests.antt =====
-- A manager of three services, at work: `db`, `web`, which depends on it, and `old`, which
-- conflicts with `web`.
use govisor.Common.{
  ◌≤◌, ℕ, ◌+◌, ◌%◌, subst, arith, ==_iff, ◌&&◌, not, ◌==◌, zero, suc, String, true, false, ◌≡◌, ◌≢◌,
  refl, List, [], ◌∷◌, none, some,
}
use govisor.Common.Refs.{Ref, contains}
use govisor.World.{World, Env, Props, Outcome, other, conflict, done, panic, spent}
use govisor.Invariant.Neighbours.{view}
use govisor.Invariant.Quiet.{Inv}
use govisor.Invariant.Frames.{Fair}
use govisor.Invariant.Post.{Ensures, ensured}
use govisor.Invariant.Manager.{Safe}
use govisor.Machine
use govisor.Manager
use govisor.Service.Runnable.{all_satisfied}
use govisor.Service.Api
use govisor.Service.Graph
use govisor.Common.Refs.{insert, remove}
use govisor.Machine.{enable, disable, Call, monitor, sane, run, all_sane, new_manager}
use govisor.World.Steps.{serial_mod}
use govisor.Machine.Serials.{Numbered, all_lasting, run-Numbered}
use govisor.Machine.Safety.{step-Safe, run-Safe, run-supplied}
use govisor.Machine.Replies.{enable-Runs, enable-Refuses, disable-Stops, check_service-Stops}
use govisor.Invariant.Shutdown.{shutdown_empties}
use govisor.Invariant.Unlink.{unlink-IsGraph}
use govisor.Invariant.Graph.{IsGraph}
use govisor.Invariant.Supply.{all_supplied}
use govisor.Service.Runnable.{is_up}
use govisor.Invariant.Paced.{RateOk, Only, too_quickly-Paced}
use govisor.Service.Limit.{too_quickly, out_of_range}
use govisor.Service.Run.{check_service}

-- Providers that work, a clock that ticks, and maps in the order of their lists.
abbrev pub env : Env
env = record {
  now = λ t. t;
  start_result = λ t r. none;
  check_result = λ t r. none;
  set_result = λ t r n v. none;
  order = λ t l. l;
  longest = 1000;
}

abbrev pub env-Fair : Fair env
env-Fair t l r = refl

abbrev named : String → List String → List String → Props
named n ds cs = record {
  name = n;
  desc = "";
  depends = ds;
  conflicts = cs;
  provides = [];
  restart = true;
}

abbrev pub props : Ref → Props
props zero = named "db" [] []
props (suc zero) = named "web:a" ("db" ∷ []) []
props (suc (suc zero)) = named "old" [] ("web" ∷ [])
props r = named "none" [] []

abbrev world_of : Outcome → World → World
world_of (done w) v = w
world_of panic v = v
world_of spent v = v

Safe-world_of : {o : Outcome} (v : World) → Safe o → Inv (view (world_of o v))
Safe-world_of v (ensured {w} i) = i

-- The services are added, and `db` runs.
abbrev pub ready : List Call
ready =
    Machine.add_service 0 ∷ Machine.add_service 1 ∷ Machine.add_service 2 ∷ Machine.enable 0 ∷ []

-- `web` is enabled before the service that it depends on.
abbrev pub busy : List Call
busy =
    Machine.add_service 0
    ∷ Machine.add_service 1
    ∷ Machine.add_service 2
    ∷ Machine.enable 1
    ∷ Machine.enable 0
    ∷ []

-- The world behind a list of calls.
abbrev pub after : List Call → World
after cs = world_of (run env cs (new_manager props "demo" 7)) (new_manager props "demo" 7)

pub after-Inv : (cs : List Call) → all_sane env cs ≡ true → Inv (view (after cs))
after-Inv cs ok =
    Safe-world_of (new_manager props "demo" 7) (run-Safe env env-Fair cs props "demo" 7 ok)

pub ready_sane : all_sane env ready ≡ true
unfolding all_sane
ready_sane = refl

pub busy_sane : all_sane env busy ≡ true
unfolding all_sane
busy_sane = refl

-- `web` starts behind `db`, and both run.
pub busy_facts :
    ((after busy).links 0).managed ≡ true
    × ((after busy).links 1).managed ≡ true
    × ((after busy).links 2).managed ≡ true
    × ((after busy).flags 0).running ≡ true
    × ((after busy).flags 1).running ≡ true
    × ((after busy).flags 1).enabled ≡ true
    × ((after busy).flags 2).enabled ≡ false
    × contains 1 ((after busy).links 2).incompat ≡ true
unfolding run new_manager Machine.step Manager.add_service Api.enable Graph.set_manager insert
    Graph.matches govisor.Name.service_matches govisor.Service.Run.start
    govisor.Service.Runnable.can_run govisor.Service.Runnable.all_satisfied
    govisor.Service.Runnable.satisfied govisor.Service.Runnable.any_enabled
    govisor.Service.Limit.too_quickly govisor.Service.Limit.record_start govisor.World.for_each
    contains
busy_facts = (refl, refl, refl, refl, refl, refl, refl, refl)

pub busy_rest :
    (after busy).services ≡ 0 ∷ 1 ∷ 2 ∷ []
    × (after busy).props ≡ props
    × ((after busy).info 1).serial ≡ 18
unfolding run new_manager Machine.step Manager.add_service Api.enable Graph.set_manager insert
    Graph.matches govisor.Name.service_matches govisor.Service.Run.start
    govisor.Service.Runnable.can_run govisor.Service.Runnable.all_satisfied
    govisor.Service.Runnable.satisfied govisor.Service.Runnable.any_enabled
    govisor.Service.Limit.too_quickly govisor.Service.Limit.record_start govisor.World.for_each
    contains
busy_rest = (refl, refl, refl)

pub ready_facts :
    ((after ready).links 1).managed ≡ true
    × ((after ready).flags 1).enabled ≡ false
    × all_satisfied (after ready).flags ((after ready).links 1).parents ≡ true
    × ((after ready).links 1).incompat ≡ 2 ∷ []
    × ((after ready).flags 2).enabled ≡ false
unfolding run new_manager Machine.step Manager.add_service Api.enable Graph.set_manager insert
    Graph.matches govisor.Name.service_matches govisor.Service.Run.start
    govisor.Service.Runnable.can_run govisor.Service.Runnable.all_satisfied
    govisor.Service.Runnable.satisfied govisor.Service.Runnable.any_enabled
    govisor.Service.Limit.too_quickly govisor.Service.Limit.record_start govisor.World.for_each
ready_facts = (refl, refl, refl, refl, refl)

only_one : (x c : Ref) → contains c (x ∷ []) ≡ true → x ≡ c
unfolding contains
only_one x c m = ground (arith, m, ==_iff x c)

pub no_conflict :
    (c : Ref)
    → contains c ((after ready).links 1).incompat ≡ true
    → ((after ready).flags c).enabled ≡ false
no_conflict c m =
    subst (λ k. ((after ready).flags k).enabled ≡ false)
      (only_one 2 c (subst (λ l. contains c l ≡ true) ready_facts.3 m)) ready_facts.4

run-Safe_example : Safe (run env busy (new_manager props "demo" 7))
run-Safe_example = run-Safe env env-Fair busy props "demo" 7 busy_sane

again_lasting : all_lasting (disable 0 ∷ enable 0 ∷ []) ≡ true
unfolding all_lasting
again_lasting = refl

again_sane : all_sane env (disable 0 ∷ enable 0 ∷ []) ≡ true
unfolding all_sane
again_sane = refl

run-Numbered_example :
    Ensures
      (λ w.
        Inv (view w)
        × (k : ℕ) × ((after busy).tick + k ≤ w.tick)
        × (w.mgr_serial % serial_mod ≡ ((after busy).mgr_serial + k) % serial_mod)
        × Numbered k (after busy) w 0)
      (run env (disable 0 ∷ enable 0 ∷ []) (after busy))
run-Numbered_example =
    run-Numbered env env-Fair (disable 0 ∷ enable 0 ∷ []) (after busy) 0 (after-Inv busy busy_sane)
      again_sane again_lasting

enable-Runs_example :
    ((Api.enable env 1 (after ready)).0 ≡ none)
    × Ensures (λ x. (x.flags 1).running ≡ true) (Api.enable env 1 (after ready)).1
enable-Runs_example =
    enable-Runs env env-Fair 1 (after ready) (after-Inv ready ready_sane) ready_facts.0
      ready_facts.1 ready_facts.2 no_conflict (λ t. refl)

enable-Refuses_example :
    ((Api.enable env 2 (after busy)).0 ≡ some conflict)
    × Ensures
        (λ x. (x.flags ≡ (after busy).flags) × (x.rate ≡ (after busy).rate))
        (Api.enable env 2 (after busy)).1
enable-Refuses_example =
    enable-Refuses env env-Fair 2 1 (after busy) busy_facts.2 busy_facts.6 busy_facts.7 busy_facts.5

disable-Stops_example :
    ((Api.disable env 0 (after busy)).0 ≡ none)
    × Ensures
        (λ x.
          ((x.flags 0).enabled ≡ false)
          × ((x.flags 0).running ≡ false)
          × ((r : Ref) → (x.flags r).enabled ≡ (((after busy).flags r).enabled && not (0 == r))))
        (Api.disable env 0 (after busy)).1
disable-Stops_example =
    disable-Stops env env-Fair 0 (after busy) (after-Inv busy busy_sane) busy_facts.0

-- An environment in which each check finds a fault.
abbrev faulty : Env
faulty = record env { check_result = λ t r. some (other "gone") }

monitor_sane : sane faulty monitor ≡ true
unfolding sane
monitor_sane = refl

step-Safe_example : Safe (Machine.step faulty monitor (after busy))
step-Safe_example =
    step-Safe faulty env-Fair monitor (after busy) (after-Inv busy busy_sane) monitor_sane

check_service-Stops_example :
    ((check_service faulty 0 (after busy)).0 ≡ some (other "gone"))
    × Ensures
        (λ x.
          ((x.flags 0).running ≡ false)
          × ((x.flags 0).failed ≡ true)
          × ((x.info 0).err ≡ some (other "gone"))
          × Inv (view x))
        (check_service faulty 0 (after busy)).1
check_service-Stops_example =
    check_service-Stops faulty env-Fair 0 (other "gone") (after busy) (after-Inv busy busy_sane)
      busy_facts.0 busy_facts.3 (λ t. refl)

shutdown_empties_example :
    Ensures
      (λ x.
        Inv (view x)
        × ((r : Ref)
            → (contains r x.services ≡ false)
              × ((x.flags r).enabled ≡ false)
              × ((x.flags r).running ≡ false)))
      (Manager.shutdown env (after busy))
shutdown_empties_example = shutdown_empties env env-Fair (after busy) (after-Inv busy busy_sane)

unlink-IsGraph_example :
    IsGraph (after busy).props (Graph.unlink 0 (after busy).links) (remove 0 (after busy).services)
unlink-IsGraph_example =
    unlink-IsGraph (after busy).props (after busy).links (after busy).services
      (after-Inv busy busy_sane).graph 0

too_quickly-Paced_example :
    ((too_quickly env 1 (after busy)).0 ≢ out_of_range)
    × ((r : Ref) → RateOk ((too_quickly env 1 (after busy)).1.rate r))
    × Only 1 (after busy) (too_quickly env 1 (after busy)).1
too_quickly-Paced_example = too_quickly-Paced env 1 (after busy) (after-Inv busy busy_sane).rates

run-supplied_example :
    Ensures
      (λ w. all_supplied w.props w.flags w.services w.services ≡ true)
      (run env busy (new_manager props "demo" 7))
run-supplied_example = run-supplied env env-Fair busy props "demo" 7 busy_sane
