-- ===== src/Server/Tests.antt =====
-- The REST server, asked.
use govisor.Common.{
  true, ℕ, ◌+◌, ◌<◌, ◌^◌, String, ◌≡◌, ◌≢◌, ◌↔◌, refl, some, inl, inr, arith, eq_iff, suc, zero,
}
use govisor.World.{World, done}
use govisor.Invariant.Post.{Ensures}
use govisor.Common.Refs.{insert}
use govisor.Machine
use govisor.Manager
use govisor.Service.Api
use govisor.Service.Graph
use govisor.Machine.{new_manager, run}
use govisor.Machine.Tests.{
  env, env-Fair, props, after, busy, busy_facts, busy_rest, after-Inv, ready, ready_sane,
  ready_facts, no_conflict,
}
use govisor.Server.Http.{Request, Web, Body}
use govisor.Server.Get.{list_services, get_manager, etag_of, find_service}
use govisor.Server.Detail.{serial, view_service, snapshot, Faithful, Settles}
use govisor.Server.Post.{enable_service}
use govisor.Server.Caching.{list_services-get_manager}
use govisor.Server.Answers.{enable_service-conflict, enable_service-Runs}
use govisor.Server.Detail.{view_service-snapshot}

abbrev web : Web
web = record {
  marshal = λ v. inr "json";
  format_utc = λ t. "then";
  format_local = λ t. "then";
  parse_time = λ s. some 0;
  now = 0;
}

abbrev tagged : Request
tagged = record {
  poll_etag = "";
  poll_time = "";
  if_none_match = etag_of 7;
  if_modified_since = "";
}

abbrev dated : Request
dated = record { poll_etag = ""; poll_time = ""; if_none_match = ""; if_modified_since = "then" }

abbrev new : World
new = new_manager props "demo" 7

new_low : new.list_serial < 2 ^ 64 × new.mgr_serial < 2 ^ 64
unfolding new_manager
new_low = (omega arith, omega arith)

list_services-get_manager_example :
    (((list_services env web tagged new).status ≡ 304) ↔ (new.list_serial ≡ 7))
    × (((get_manager web tagged new).status ≡ 304) ↔ (new.mgr_serial ≡ 7))
list_services-get_manager_example =
    list_services-get_manager env web tagged new 7 (omega arith) new_low.0 new_low.1 refl refl

then_some : ◌≢◌ {A = String} "then" ""
then_some e = ground (arith, (eq_iff "then" "").1 e)

tag_some : ◌≢◌ {A = String} "" "\"7\""
tag_some e = ground (arith, (eq_iff "" "\"7\"").1 e)

marshals : (b : Body) (x : String) → web.marshal b ≢ inl x
marshals b x e = ground (arith, e)

found : find_service env "old" (after busy) ≡ some 2
unfolding find_service
found = rw (busy_rest.0, busy_rest.1, find_service) refl

enable_service-conflict_example :
    ((enable_service env web "old" (after busy)).0.status ≡ 400)
    × Ensures
        (λ x. (x.flags ≡ (after busy).flags) × (x.rate ≡ (after busy).rate))
        (enable_service env web "old" (after busy)).1
enable_service-conflict_example =
    enable_service-conflict env web "old" 2 1 (after busy) env-Fair marshals found busy_facts.2
      busy_facts.6 busy_facts.7 busy_facts.5

found_web : find_service env "web:a" (after ready) ≡ some 1
unfolding find_service run new_manager Machine.step Manager.add_service Api.enable Graph.set_manager
    insert Graph.matches govisor.Name.service_matches govisor.Service.Run.start
    govisor.Service.Runnable.can_run govisor.Service.Runnable.all_satisfied
    govisor.Service.Runnable.satisfied govisor.Service.Runnable.any_enabled
    govisor.Service.Limit.too_quickly govisor.Service.Limit.record_start govisor.World.for_each
found_web = refl

enable_service-Runs_example :
    ((enable_service env web "web:a" (after ready)).0.status ≡ 200)
    × Ensures (λ x. (x.flags 1).running ≡ true) (enable_service env web "web:a" (after ready)).1
enable_service-Runs_example =
    enable_service-Runs env web "web:a" 1 (after ready) env-Fair marshals
      (after-Inv ready ready_sane) found_web ready_facts.0 ready_facts.1 ready_facts.2 no_conflict
      (λ t. refl)

-- A service that changes while it is read.
abbrev past : ℕ → World
past zero = new
past (suc n) = after busy

serials : serial 1 new ≡ 0 × serial 1 (after busy) ≡ 18
unfolding serial new_manager
serials = (refl, rw (busy_facts.1, busy_rest.2, serial) refl)

past-Faithful : Faithful 1 past
past-Faithful zero zero c low high same = refl
past-Faithful zero (suc b) zero low high same = absurd (omega (arith, high))
past-Faithful zero (suc b) (suc c) low high same = ground (arith, same, serials)
past-Faithful (suc a) zero c low high same = absurd (omega (arith, low))
past-Faithful (suc a) (suc b) c low high same = refl

past-Settles : Settles 1 past 1
past-Settles zero h = absurd (omega (arith, h))
past-Settles (suc k) h = refl

view_service-snapshot_example :
    (u : ℕ) × (view_service 1 past (1 + 1) 0 ≡ some (snapshot 1 past (past u)))
view_service-snapshot_example =
    view_service-snapshot 1 past 1 1 0 past-Faithful past-Settles (omega arith)
