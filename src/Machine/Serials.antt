-- ===== src/Machine/Serials.antt =====
-- Histories of a Manager: the serial number of a service stands for what is shown of it.
use native.Mathlib.Nat.{mod-add-mod, div-add-mod'}
use govisor.Common.{
  ℕ, ◌+◌, ◌%◌, ◌<◌, ◌≤◌, Bool, true, false, ◌≡◌, ◌≢◌, refl, sym, ap, ◌∙◌, List, [], ◌∷◌,
  if◌then◌else◌, Bool-cases, inl, inr, arith,
}
use govisor.Common.Refs.{Ref}
use govisor.World.{World, Env, Outcome}
use govisor.World.Steps.{serial_mod}
use govisor.Service.Api
use govisor.Manager
use govisor.Service.Api.{enabled, running, failed}
use govisor.Service.Property.{make_panics, try_set_property}
use govisor.Server.Http.{ServiceInfo}
use govisor.Server.Detail.{serial, read_info}
use govisor.Machine.{
  Call, add_service, delete_service, enable, disable, restart, clear, check, notify, monitor,
  shutdown, start_monitoring, stop_monitoring, do_notify, step, run, set_property, all_sane,
}
use govisor.Machine.Safety.{run_from-Safe}
use govisor.Invariant.Post.{Ensures, ensured}
use govisor.Invariant.Neighbours.{view}
use govisor.Invariant.Frames.{Fair}
use govisor.Invariant.Quiet.{Inv}
use govisor.Invariant.Tracked.{Same, gone, fresh, Change, moved, same, Idle-Tracked, Tracked-refl}
use govisor.Invariant.Outcomes.{panics, Tracks, tracks, Tracks-bind, unseen}
use govisor.Invariant.Handed.{check_service-Tracks, notify-Tracks, monitor_pass-Tracks}
use govisor.Invariant.Answered.{enable-Tracks, disable-Tracks, restart-Tracks, clear-Tracks}
use govisor.Invariant.Joined.{add_service-Tracks, delete_service-Tracks, set_property-Tracks}

-- `Shutdown` removes all services, and hands out no numbers for it.
unfoldable pub lasting : Call → Bool
lasting shutdown = false
lasting c = true

unfoldable pub all_lasting : List Call → Bool
unfolding lasting
all_lasting [] = true
all_lasting (c ∷ cs) = if lasting c then all_lasting cs else false

module _ (env : Env) where
  step-Tracks : (c : Call) (w : World) → lasting c ≡ true → Tracks w (step env c w)
  unfolding step try_set_property do_notify lasting Api.check Manager.start_monitoring
      Manager.stop_monitoring
  step-Tracks (add_service s) w l = add_service-Tracks env s w
  step-Tracks (delete_service s) w l = delete_service-Tracks env s w
  step-Tracks (enable s) w l = enable-Tracks env s w
  step-Tracks (disable s) w l = disable-Tracks env s w
  step-Tracks (restart s) w l = restart-Tracks env s w
  step-Tracks (clear s) w l = clear-Tracks env s w
  step-Tracks (check s) w l = elim (Bool-cases (w.links s).managed) [
    | inl e ↦ rw (e, step, Api.check) (check_service-Tracks env s w)
    | inr e ↦ rw (e, step, Api.check) (tracks 0 (Tracked-refl w))
  ]
  step-Tracks (notify s) w l = elim (Bool-cases (w.links s).managed) [
    | inl e ↦ rw (e, step, do_notify) (notify-Tracks env s w)
    | inr e ↦ rw (e, step, do_notify) (tracks 0 (Tracked-refl w))
  ]
  step-Tracks (set_property s p v) w l = elim (Bool-cases (make_panics env p v)) [
    | inl e ↦ rw (e, step, try_set_property) panics
    | inr e ↦ rw (e, step, try_set_property) (set_property-Tracks env s p v w)
  ]
  step-Tracks monitor w l = monitor_pass-Tracks env w
  step-Tracks shutdown w l = ground (arith, l)
  step-Tracks start_monitoring w l =
      tracks 0 (Idle-Tracked (unseen (omega arith) refl refl refl refl refl))
  step-Tracks stop_monitoring w l =
      tracks 0 (Idle-Tracked (unseen (omega arith) refl refl refl refl refl))

  run-Tracks : (cs : List Call) (w : World) → all_lasting cs ≡ true → Tracks w (run env cs w)
  unfolding run all_lasting
  run-Tracks [] w l = tracks 0 (Tracked-refl w)
  run-Tracks (c ∷ cs) w l =
      Tracks-bind {f = run env cs} (step-Tracks c w (ground (arith, l)))
        (λ x. run-Tracks cs x (ground (arith, l)))

-- What getService shows of a service in one state.
abbrev pub seen : Ref → World → ServiceInfo
seen s w = read_info s w w w w w

seen-Same : (s : Ref) (v w : World) → Same v w s → seen s w ≡ seen s v
unfolding read_info serial enabled running failed
seen-Same s v w i = rw (i.managed, i.props, i.flags, i.reason, i.stamp, i.serial) refl

-- The number of a service at the end of a history in which `k` numbers were handed out: it has no
-- manager, or one of these numbers, or the number that it had, and then it shows what it showed.
pub data Numbered (k : ℕ) (v w : World) (s : Ref) : Type 0 where
  unmanaged : (w.links s).managed ≡ false → Numbered k v w s
  renumbered :
      (j : ℕ)
      → 0 < j
      → j ≤ k
      → (w.info s).serial ≡ (v.mgr_serial + j) % serial_mod
      → Numbered k v w s
  unchanged : (w.info s).serial ≡ (v.info s).serial → seen s w ≡ seen s v → Numbered k v w s

Change-Numbered : (s : Ref) (k : ℕ) (v w : World) → Change k v w s → Numbered k v w s
Change-Numbered s k v w (moved (gone e)) = unmanaged e
Change-Numbered s k v w (moved (fresh j a b e)) = renumbered j a b e
Change-Numbered s k v w (same i) = unchanged i.serial (seen-Same s v w i)

-- A number that was handed out is not an older one, while fewer than 2 ^ 64 lie between them.
mod_apart : (m x : ℕ) → 0 < x → x < serial_mod → (m + x) % serial_mod ≢ m % serial_mod
mod_apart m x h k e =
    omega (arith, h, k, e, div-add-mod' (m + x) serial_mod, div-add-mod' m serial_mod)

-- A number that is still the same stands for what was shown, while fewer than 2 ^ 64 numbers lie
-- between it and the last one that was handed out.
pub seen-Numbered :
    (s : Ref) (k d : ℕ) (v w : World)
    → Numbered k v w s
    → (w.links s).managed ≡ true
    → d + k < serial_mod
    → ((v.info s).serial + d) % serial_mod ≡ v.mgr_serial % serial_mod
    → (w.info s).serial ≡ (v.info s).serial
    → seen s w ≡ seen s v
seen-Numbered s k d v w (unchanged f g) m h old e = g
seen-Numbered s k d v w (unmanaged g) m h old e = ground (arith, m, g)
seen-Numbered s k d v w (renumbered j a b g) m h old e = absurd (
    mod_apart v.mgr_serial (j + d) (omega (arith, a)) (omega (arith, b, h)) (
      ap (λ n. n % serial_mod) (omega arith)
      ∙ sym (mod-add-mod (v.mgr_serial + j) serial_mod d)
      ∙ ap (λ n. (n + d) % serial_mod) (sym g ∙ e)
      ∙ old))

Ensures-Tracks :
    {P : World → Type 0} {v : World} {o : Outcome} (s : Ref)
    → Ensures P o
    → Tracks v o
    → Ensures
        (λ w.
          P w
          × (k : ℕ) × (v.tick + k ≤ w.tick)
          × (w.mgr_serial % serial_mod ≡ (v.mgr_serial + k) % serial_mod)
          × Numbered k v w s)
        o
Ensures-Tracks {v = v} s (ensured {w} p) (tracks k t) =
    ensured (p, k, t.clock, t.handed, Change-Numbered s k v w (t.each s (λ q. ground (arith, q))))

-- For providers whose calls return, with nil or any error, a clock and map orders of any kind
-- (an order only has to visit just what is in the map): from a state in which the invariant
-- holds, every list of calls of a Manager and its services without Shutdown, that sets no nil
-- logger and no rate limit that is negative or longer than a slice may be, returns and keeps it,
-- hands out some count of serial numbers, at most one for each reading of the clock, and leaves
-- each service without a manager, or with one of these numbers, or with the number that it had,
-- and then getService shows of it in the end just what it showed at the start.
pub run-Numbered :
    (env : Env)
    → Fair env
    → (cs : List Call) (v : World) (s : Ref) → Inv (view v)
    → all_sane env cs ≡ true
    → all_lasting cs ≡ true
    → Ensures
        (λ w.
          Inv (view w)
          × (k : ℕ) × (v.tick + k ≤ w.tick)
          × (w.mgr_serial % serial_mod ≡ (v.mgr_serial + k) % serial_mod)
          × Numbered k v w s)
        (run env cs v)
run-Numbered env fair cs v s i ok l =
    Ensures-Tracks s (run_from-Safe env fair cs v i ok) (run-Tracks env cs v l)
