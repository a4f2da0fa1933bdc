-- ===== src/Log/Tests.antt =====
-- A log at work.
use govisor.Common.{ℕ, ◌≡◌, ◌≢◌, refl, ◌<◌, ◌-◌, ◌==◌, false, drop, length, List, [], ◌∷◌, arith}
use govisor.World.Steps.{serial_mod}
use govisor.Log.Lines.{lines}
use govisor.Log.{Log, new_log, max_log_records, get_records, records, unchanged, write}
use govisor.Log.Refine.{Op, writes, clears, run, history, get_records-run}
use govisor.Log.Fresh.{get_records-write}

abbrev clock : ℕ → ℕ
clock t = t

abbrev ops : List Op
ops = writes "one\n" ∷ clears ∷ writes "two\nthree\n" ∷ []

two_lines : lines "two\nthree\n" ≡ "two" ∷ "three" ∷ []
unfolding lines
two_lines = refl

ops_new : ((run clock ops (new_log 5)).id == 0) ≡ false
unfolding run write lines govisor.Log.clear
ops_new = refl

get_records-run_example :
    get_records (run clock ops (new_log 5)) 0
    ≡ records
        (drop
          (length (history clock ops (new_log 5) []) - max_log_records)
          (history clock ops (new_log 5) []))
        (run clock ops (new_log 5)).id
get_records-run_example = get_records-run clock ops 5 0 ops_new

two_short : length (lines "two\nthree\n") < serial_mod
two_short = rw two_lines (omega arith)

get_records-write_example :
    get_records (write clock "two\nthree\n" (new_log 5)) (new_log 5).id ≢ unchanged (new_log 5).id
get_records-write_example = get_records-write clock "two\nthree\n" (new_log 5) two_short
