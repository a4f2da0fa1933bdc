-- ===== src/Manager.antt =====
-- manager.go: the operations of a Manager on its services.
use govisor.Common.{
  String, Bool, true, false, none, some, List, [], ◌∷◌, str_eq, if◌then◌else◌, str_append, suc,
}
use govisor.Common.Refs.{Ref}
use govisor.World.{
  World, Env, text, name_exists, is_enabled, Props, Outcome, done, ◌>>=◌, for_each, manager_log,
}
use govisor.World.Steps.{bump, bump_serial, set_flags}
use govisor.Service.Run.{stop, check_service, self_heal}
use govisor.Service.Graph.{matches, set_manager, del_manager}
use govisor.Service.Api.{Reply}

abbrev pub log_manager : String → World → World
log_manager line w = record w { trace = manager_log line ∷ w.trace }

-- `s.Name() == s2.Name()` for some service `s2` of the manager.
unfoldable pub name_taken : (Ref → Props) → String → List Ref → Bool
name_taken props n [] = false
name_taken props n (t ∷ ts) = if str_eq n (props t).name then true else name_taken props n ts

-- `FindServices`
unfoldable pub find_services : (Ref → Props) → String → List Ref → List Ref
find_services props check [] = []
find_services props check (s ∷ ss) =
    if matches (props s) check
    then s ∷ find_services props check ss
    else find_services props check ss

-- `[m] what [s]tail`
abbrev pub line : String → String → String → String → String
line m what s tail =
    str_append
      (str_append (str_append (str_append (str_append (str_append "[" m) "] ") what) " [") s)
      (str_append "]" tail)

module _ (env : Env) where
  -- `m.listSerial = m.bumpSerial(); s.serial = m.bumpSerial(); m.listStamp = time.Now()`
  unfoldable pub list_changed : Ref → World → World
  list_changed s w =
      let w1 = bump_serial env w in
      let w2 = bump env s (record w1 { list_serial = w1.mgr_serial }) in
      record w2 { list_stamp = env.now w2.tick; tick = suc w2.tick }

  unfoldable pub add_service : Ref → World → Reply
  unfolding list_changed name_taken
  add_service s w =
      let n = (w.props s).name in
      if name_taken w.props n w.services
      then (
        some name_exists,
        done (
            log_manager
              (line w.mgr_name "Failed to add service" n (str_append ": " (text name_exists))) w),
      )
      else (
        none,
        set_manager env s w >>= λ w1. done (
            log_manager (line w.mgr_name "Added service" n (str_append ": " (w.props s).desc))
              (list_changed s w1)),
      )

  unfoldable pub delete_service : Ref → World → Reply
  unfolding list_changed
  delete_service s w = if (w.flags s).enabled then (some is_enabled, done w) else (
    none,
    done (
        list_changed s (
          log_manager (line w.mgr_name "Deleted service" (w.props s).name "")
            (del_manager env s w))),
  )

  -- One service in the loop of `monitor`, and `notify` behind its test.
  unfoldable pub watch : Ref → World → Outcome
  watch s w =
      if (w.flags s).enabled
      then (let (e, o) = check_service env s w in
          elim e [ none ↦ o | some x ↦ o >>= self_heal env s ])
      else done w

  -- The end of a pass of `monitor`; the flag is `finish`.
  unfoldable pub end_pass : World → World × Bool
  end_pass w = if w.cleanup then (record w { monitoring = false }, true) else (w, false)

  -- The loop of `monitor` over the services.
  unfoldable pub pass : World → Outcome
  unfolding watch
  pass w =
      if w.monitoring
      then for_each watch (env.order w.tick w.services) (record w { tick = suc w.tick })
      else done w

  -- A round of `monitor`, under the lock.
  unfoldable pub monitor_pass : World → Outcome
  unfolding pass end_pass
  monitor_pass w = pass w >>= λ w1. done (end_pass w1).0

  unfoldable pub notify : Ref → World → Outcome
  unfolding watch
  notify s w = if (w.info s).checking then done w else watch s w

  -- The body of the loop of `Shutdown`.
  unfoldable pub shut : Ref → World → Outcome
  shut s w =
      stop env s "Shutting down" (set_flags s (record (w.flags s) { enabled = false }) w) >>= λ w1.
      done (del_manager env s w1)

  unfoldable pub shutdown : World → Outcome
  unfolding shut
  shutdown w =
      let w1 = record w { monitoring = false } in
      for_each shut (env.order w1.tick w1.services) (record w1 { tick = suc w1.tick }) >>= λ w2.
      done (log_manager (str_append (str_append "*** Govisor shut down: " w.mgr_name) " ***") w2)

  unfoldable pub start_monitoring : World → World
  start_monitoring w =
      record (log_manager
        (str_append (str_append "*** Govisor starting monitoring: " w.mgr_name) " ***") w) {
          monitoring = true;
        }

  unfoldable pub stop_monitoring : World → World
  stop_monitoring w =
      log_manager (str_append (str_append "*** Govisor stopping monitoring: " w.mgr_name) " ***")
        (record w { monitoring = false })
