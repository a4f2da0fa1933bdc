-- ===== src/MultiLog.antt =====
-- multilog.go: one logger that passes its lines on to several.
pub mod Deliver
mod Tests
use govisor.Common.{ℕ, String, ◌==◌, List, [], ◌∷◌, ◌++◌, if◌then◌else◌}
use govisor.Common.Refs.{Ref, contains}
use govisor.Log.Lines.{lines}

-- `AddLogger`, on the list of the loggers.
unfoldable pub add_logger : Ref → List Ref → List Ref
add_logger r ls = if contains r ls then ls else ls ++ r ∷ []

-- `DelLogger`: the first entry of the logger goes.
unfoldable pub del_logger : Ref → List Ref → List Ref
del_logger r [] = []
del_logger r (x ∷ xs) = let rest = del_logger r xs in if x == r then xs else x ∷ rest

-- A line that a logger prints.
pub record Print : Type 0 where
  pub to : Ref
  pub line : String

-- The inner loop of `Write`: the line goes to each logger.
unfoldable pub print_all : String → List Ref → List Print
print_all x [] = []
print_all x (r ∷ rs) = record { to = r; line = x } ∷ print_all x rs

unfoldable pub print_lines : List String → List Ref → List Print
unfolding print_all
print_lines [] ls = []
print_lines (x ∷ xs) ls = print_all x ls ++ print_lines xs ls

-- `Write`: what is printed, in order.
unfoldable pub write : String → List Ref → List Print
unfolding print_lines
write s ls = print_lines (lines s) ls
