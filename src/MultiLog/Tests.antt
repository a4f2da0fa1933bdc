-- ===== src/MultiLog/Tests.antt =====
-- Two loggers, of which one is added twice and one is taken out again.
use govisor.Common.{◌≡◌, false, refl, List, [], ◌∷◌, if◌then◌else◌}
use govisor.Common.Refs.{contains}
use govisor.Log.Lines.{lines}
use govisor.MultiLog.{write}
use govisor.MultiLog.Deliver.{Op, adds, dels, loggers, registered, printed, printed-write}

abbrev ops : List Op
ops = adds 1 ∷ adds 2 ∷ adds 1 ∷ dels 2 ∷ []

one_is_left : loggers ops [] ≡ 1 ∷ []
unfolding loggers contains
one_is_left = refl

printed-write_example :
    printed 1 (write "a\nb\n" (loggers ops []))
    ≡ (if registered 1 ops false then lines "a\nb\n" else [])
printed-write_example = printed-write ops "a\nb\n" 1
