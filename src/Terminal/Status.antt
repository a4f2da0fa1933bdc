-- ===== src/Terminal/Status.antt =====
-- govisor/main.go `status`: all services are shown, or the first failure.
use govisor.Common.{String, ◌≡◌, refl, List, [], ◌∷◌, ◌++◌, map, inl, inr}
use govisor.Client.Http.{Failure}
use govisor.Server.Http.{ServiceInfo}
use govisor.Terminal.{Remote, fatal, prints, gather, show_statuses, show_status, status_of}

-- Each of the names is that of a service, with the information beside it.
pub data Found (r : Remote) : List String → List ServiceInfo → Type 0 where
  none_asked : Found r [] []
  one_more :
      {n : String} {ns : List String} {i : ServiceInfo} {is : List ServiceInfo}
      → r.get_service n ≡ inr i
      → Found r ns is
      → Found r (n ∷ ns) (i ∷ is)

module _ (r : Remote) where
  gather-Found : {ns : List String} {is : List ServiceInfo} → Found r ns is → gather r ns ≡ inr is
  unfolding gather
  gather-Found none_asked = refl
  gather-Found (one_more e f) = rw (e, gather-Found f, gather) refl

  gather-failed :
      {ns : List String} {is : List ServiceInfo} (n : String) (rest : List String) (e : Failure)
      → Found r ns is
      → r.get_service n ≡ inl e
      → gather r (ns ++ n ∷ rest) ≡ inl e
  unfolding gather
  gather-failed n rest e none_asked bad = rw bad refl
  gather-failed n rest e (one_more g f) bad = rw (g, gather-failed n rest e f bad, gather) refl

  -- If the server has a service for each of the names n and ns and fails with e for the name
  -- bad, then the command status prints, for n and ns, a line for each service in the order of
  -- the library, and, for n and ns with bad behind them, whatever follows, only the error e.
  pub status_of-Found :
      (n : String) (ns rest : List String) (i : ServiceInfo) (is : List ServiceInfo) (e : Failure)
      (bad : String)
      → Found r (n ∷ ns) (i ∷ is)
      → r.get_service bad ≡ inl e
      → (status_of r (n ∷ ns) ≡ prints (map (show_status r) (r.sort_services (i ∷ is))))
        × (status_of r ((n ∷ ns) ++ bad ∷ rest) ≡ fatal "Error" e)
  unfolding status_of show_statuses
  status_of-Found n ns rest i is e bad f g = (
    rw (status_of, show_statuses, gather-Found f) refl,
    rw (status_of, show_statuses, gather-failed bad rest e f g) refl,
  )
