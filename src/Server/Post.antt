-- ===== src/Server/Post.antt =====
-- server/server.go: the calls of services, and the table of routes.
use govisor.Common.{ℕ, suc, String, Option, none, some, List, [], ◌∷◌}
use govisor.Common.Refs.{Ref}
use govisor.World.{World, Env, text, Outcome, done, panic, spent}
use govisor.Service.Api.{Reply, enable, disable, restart, clear}
use govisor.Log.{Log, get_records}
use govisor.Server.Http.{Request, Response, Web, ok, blank, write_json, write_error}
use govisor.Server.Get.{find_service, show_log}
use govisor.Server.Detail.{get_service}

-- What is sent, and what becomes of the Manager.
abbrev pub Served : Type 0
Served = Response × Outcome

module _ (env : Env) (web : Web) where
  -- The end of a handler that has called the service. `enableService` asks whether `e`, the nil
  -- that `findService` has returned, is ErrConflict, which it is not.
  unfoldable pub finish : Reply → Served
  finish (none, o) = (write_json web ok blank, o)
  finish (some e, o) = (write_error web 400 (text e) blank, o)

  -- `findService`, and what follows if there is such a service. The map is read once.
  unfoldable pub on_service : String → (Ref → World → Served) → World → Served
  on_service n f w =
      let w1 = record w { tick = suc w.tick } in
      elim (find_service env n w) [
        | none ↦ (write_error web 404 "Service not found" blank, done w1)
        | some s ↦ f s w1
      ]

  unfoldable pub enable_service : String → World → Served
  unfolding on_service finish
  enable_service n w = on_service n (λ s v. finish (enable env s v)) w

  unfoldable pub disable_service : String → World → Served
  unfolding on_service finish
  disable_service n w = on_service n (λ s v. finish (disable env s v)) w

  unfoldable pub restart_service : String → World → Served
  unfolding on_service finish
  restart_service n w = on_service n (λ s v. finish (restart env s v)) w

  unfoldable pub clear_service : String → World → Served
  unfolding on_service
  clear_service n w = on_service n (λ s v. (write_json web ok blank, clear env s v)) w

  -- A response, or else another end of the handler.
  abbrev shown : Outcome → Option Response → World → Served
  shown o none w = (blank, o)
  shown o (some r) w = (r, done w)

  -- `getLog`, with the logs of the services.
  unfoldable pub get_log : (Ref → Log) → Request → String → World → Served
  unfolding on_service show_log
  get_log log r n w = on_service n (λ s v. shown panic (show_log web r (get_records (log s) 0)) v) w

  -- `getService`, with the states at its readings and the rounds that it may take.
  unfoldable pub show_service : (ℕ → World) → ℕ → Request → String → World → Served
  unfolding on_service get_service
  show_service past rounds r n w =
      on_service n (λ s v. shown spent (get_service s past web r rounds 0) v) w

pub data Route : Type 0 where
  manager manager_log services service enabling disabling clearing restarting service_log : Route

-- The table of `NewHandler`: a method, a path in which a name may stand, and the handler.
abbrev pub routes : List (String × String × Route)
routes =
    ("GET", "/", manager)
    ∷ ("GET", "/log", manager_log)
    ∷ ("GET", "/services", services)
    ∷ ("GET", "/services/{service}", service)
    ∷ ("POST", "/services/{service}/enable", enabling)
    ∷ ("POST", "/services/{service}/disable", disabling)
    ∷ ("POST", "/services/{service}/clear", clearing)
    ∷ ("POST", "/services/{service}/restart", restarting)
    ∷ ("GET", "/services/{service}/log", service_log)
    ∷ []
