-- ===== src/Log.antt =====
-- log.go: the records of a log, in a ring.
pub mod Lines
pub mod Refine
pub mod Fresh
mod Tests
use govisor.Common.{
  ℕ, zero, suc, ◌+◌, ◌-◌, ◌%◌, ◌==◌, String, Option, none, some, List, [], ◌∷◌, if◌then◌else◌, leb,
  get_elem?, set, replicate,
}
use govisor.World.Steps.{serial_mod}
use govisor.Log.Lines.{lines}

pub record Entry : Type 0 where
  pub id : ℕ
  pub time : ℕ
  pub text : String

-- `records` is none while the slice is nil; `tick` counts the readings of the clock.
pub record Log : Type 0 where
  pub records : Option (List Entry)
  pub num_records : ℕ
  pub max_records : ℕ
  pub id : ℕ
  pub tick : ℕ

abbrev pub max_log_records : ℕ
max_log_records = 1000

abbrev pub blank : Entry
blank = record { id = 0; time = 0; text = "" }

-- The slots of the table; a nil slice has none.
unfoldable pub slots : Log → List Entry
slots l = elim l.records [ none ↦ [] | some r ↦ r ]

-- What `Write` does before it takes the lock.
unfoldable pub prepare : Log → Log
prepare l =
    let n = if l.max_records == 0 then max_log_records else l.max_records in
    elim l.records [
      | none ↦ record l { max_records = n; records = some (replicate n blank); num_records = 0 }
      | some r ↦ record l { max_records = n }
    ]

module _ (now : ℕ → ℕ) where
  -- The body of the loop of `Write`.
  unfoldable pub write_line : String → Log → Log
  unfolding slots
  write_line line l =
      let i = (l.id + 1) % serial_mod in
      record l {
        records = some (
            set (slots l) (l.num_records % l.max_records)
              (record { id = i; time = now l.tick; text = line }));
        num_records = l.num_records + 1;
        id = i;
        tick = suc l.tick;
      }

  unfoldable pub write_lines : List String → Log → Log
  unfolding write_line
  write_lines [] l = l
  write_lines (x ∷ xs) l = write_lines xs (write_line x l)

  unfoldable pub write : String → Log → Log
  unfolding write_lines prepare
  write s l = write_lines (lines s) (prepare l)

  unfoldable pub clear : Log → Log
  clear l = record l { num_records = 0; id = now l.tick % serial_mod; tick = suc l.tick }

-- What `GetRecords` answers: that nothing is new, the records, or an index out of range.
pub data Answer : Type 0 where
  unchanged : ℕ → Answer
  records : List Entry → ℕ → Answer
  out_of_range : Answer

-- The loop of `GetRecords`: `n` records from `index` on.
unfoldable pub collect : List Entry → ℕ → ℕ → ℕ → Option (List Entry)
collect table max index zero = some []
collect table max index (suc n) = elim (get_elem? table (index % max)) [
  | none ↦ none
  | some e ↦ elim (collect table max (index + 1) n) [ none ↦ none | some es ↦ some (e ∷ es) ]
]

-- The records that `GetRecords` copies.
unfoldable pub fetch : List Entry → ℕ → ℕ → ℕ → Answer
unfolding collect
fetch table num max id =
    let cnt = if leb num max then num else max in
    elim (collect table max (num - cnt) cnt) [ none ↦ out_of_range | some es ↦ records es id ]

unfoldable pub get_records : Log → ℕ → Answer
unfolding fetch slots
get_records l last =
    if l.id == last then unchanged last else fetch (slots l) l.num_records l.max_records l.id

-- `NewLog`, at the time `now`.
abbrev pub new_log : ℕ → Log
new_log t = record {
  records = none;
  num_records = 0;
  max_records = max_log_records;
  id = t % serial_mod;
  tick = 0;
}
