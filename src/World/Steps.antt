-- ===== src/World/Steps.antt =====
-- The small steps that the operations of services share.
use govisor.Common.{ℕ, suc, ◌+◌, ◌%◌, ◌^◌, String, ◌∷◌}
use govisor.Common.Refs.{Ref}
use govisor.World.Defs.{Info, Flags, Links, Rate, World, Env, put, service_log}

-- `int64` serial numbers, as bit patterns.
abbrev pub serial_mod : ℕ
serial_mod = 2 ^ 64

abbrev pub log_line : Ref → String → World → World
log_line r line w = record w { trace = service_log r line ∷ w.trace }

module _ (env : Env) where
  -- `m.bumpSerial()`
  abbrev pub bump_serial : World → World
  bump_serial w = record w {
    update_time = env.now w.tick;
    mgr_serial = (w.mgr_serial + 1) % serial_mod;
    tick = suc w.tick;
  }

  -- `s.serial = s.mgr.bumpSerial()`
  abbrev pub bump : Ref → World → World
  bump r w =
      let w' = bump_serial w in
      record w' { info = put w'.info r (record (w'.info r) { serial = w'.mgr_serial }) }

  -- `s.reason = reason; s.stamp = time.Now()`
  abbrev pub set_reason : Ref → String → World → World
  set_reason r reason w = record w {
    info = put w.info r (record (w.info r) { reason = reason; stamp = env.now w.tick });
    tick = suc w.tick;
  }

abbrev pub set_flags : Ref → Flags → World → World
set_flags r f w = record w { flags = put w.flags r f }

abbrev pub set_rate : Ref → Rate → World → World
set_rate r x w = record w { rate = put w.rate r x }

abbrev pub set_links : Ref → Links → World → World
set_links r l w = record w { links = put w.links r l }

abbrev pub set_info : Ref → Info → World → World
set_info r i w = record w { info = put w.info r i }
