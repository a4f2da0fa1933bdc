-- ===== src/Daemon/Start.antt =====
-- govisord/main.go: the services of the directory, and the start of the Manager.
use govisor.Common.{ℕ, suc, String, Bool, true, false, Option, none, some, List, [], ◌∷◌}
use govisor.Common.Refs.{Ref}
use govisor.World.{World, Env, Props, Outcome, done, ◌>>=◌, for_each}
use govisor.Manager.{add_service, start_monitoring}
use govisor.Service.Api.{enable}
use govisor.Machine.{new_manager}
use govisor.Machine.Safety.{safe, new_manager-Inv}
use govisor.Invariant.Post.{ensured, Ensures-bind, Ensures-for_each}
use govisor.Invariant.Neighbours.{view}
use govisor.Invariant.Frames.{Fair}
use govisor.Invariant.Quiet.{Inv}
use govisor.Invariant.Calls.{enable-Keeps}
use govisor.Invariant.Manager.{Safe, add_service-Safe}

module _ (env : Env) where
  -- One file of the directory: the service of its manifest, if there is one. An error is passed over.
  unfoldable pub load_file : Option Ref → World → Outcome
  load_file none w = done w
  load_file (some s) w = (add_service env s w).1

  unfoldable pub load_files : List (Option Ref) → World → Outcome
  unfolding load_file
  load_files [] w = done w
  load_files (f ∷ fs) w = load_file f w >>= load_files fs

  -- `if enable { … }`
  unfoldable pub enable_all : Bool → World → Outcome
  enable_all false w = done w
  enable_all true w =
      for_each (λ s v. (enable env s v).1) (env.order w.tick w.services)
        (record w { tick = suc w.tick })

  unfoldable pub start_up : Bool → List (Option Ref) → World → Outcome
  unfolding load_files enable_all
  start_up b files w = load_files files w >>= λ v. enable_all b (start_monitoring env v)

  module _ (fair : Fair env) where
    pub load_files-Safe :
        (files : List (Option Ref)) (w : World) → Inv (view w) → Safe (load_files files w)
    unfolding load_files load_file
    load_files-Safe [] w i = ensured i
    load_files-Safe (none ∷ fs) w i = load_files-Safe fs w i
    load_files-Safe (some s ∷ fs) w i =
        Ensures-bind (add_service-Safe env fair s w i) (λ v j. load_files-Safe fs v j)

    enable_all-Safe : (b : Bool) (w : World) → Inv (view w) → Safe (enable_all b w)
    unfolding enable_all
    enable_all-Safe false w i = ensured i
    enable_all-Safe true w i =
        Ensures-for_each (λ rs v. Inv (view v)) (λ s v. (enable env s v).1)
          (λ s rs v j. safe (enable-Keeps env fair s v j)) (env.order w.tick w.services)
          (record w { tick = suc w.tick }) i

    -- The start of the daemon, from the state of NewManager, keeps the invariant.
    start_up-Safe :
        (b : Bool) (files : List (Option Ref)) (props : Ref → Props) (name : String) (now : ℕ)
        → Safe (start_up b files (new_manager props name now))
    unfolding start_up start_monitoring
    start_up-Safe b files props name now =
        Ensures-bind (load_files-Safe files _ (new_manager-Inv props name now))
          (λ v j. enable_all-Safe b (start_monitoring env v) j)
