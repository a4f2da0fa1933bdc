-- ===== src/Log/Fresh.antt =====
-- log.go: a reader of a log, and what was written since it asked.
use govisor.Common.{
  ℕ, ◌+◌, ◌%◌, ◌<◌, ◌==◌, ==_iff, ◌≡◌, ◌≢◌, refl, sym, ap, ◌∙◌, String, List, [], ◌∷◌, length,
  arith, Bool-cases, inl, inr, Option-cases,
}
use native.Mathlib.Nat.{mod-add-mod}
use govisor.World.Steps.{serial_mod}
use govisor.Log.Lines.{lines, lines_some}
use govisor.Log.Refine.{mod-ne}
use govisor.Log.{
  Log, write_line, write_lines, write, prepare, get_records, unchanged, fetch, Entry, slots,
}

id-write_lines :
    (now : ℕ → ℕ) (xs : List String) (l : Log)
    → (write_lines now xs l).id % serial_mod ≡ (l.id + length xs) % serial_mod
unfolding write_lines write_line
id-write_lines now [] l = ap (λ k. k % serial_mod) (omega arith)
id-write_lines now (x ∷ xs) l =
    id-write_lines now xs (write_line now x l)
    ∙ mod-add-mod (l.id + 1) serial_mod (length xs)
    ∙ ap (λ k. k % serial_mod) (omega arith)

id-prepare : (l : Log) → (prepare l).id ≡ l.id
unfolding prepare
id-prepare l = elim (Option-cases l.records) [ inl e ↦ rw e refl | inr (r, e) ↦ rw e refl ]

fetch-new : (table : List Entry) (num max id k : ℕ) → fetch table num max id ≢ unchanged k
unfolding fetch
fetch-new table num max id k e = ground (arith, e)

-- A reader that asks with the identity that a log had before a Write of fewer than 2 ^ 64 lines
-- is not told that nothing has changed.
pub get_records-write :
    (now : ℕ → ℕ) (s : String) (l : Log)
    → length (lines s) < serial_mod
    → get_records (write now s l) l.id ≢ unchanged l.id
unfolding get_records write
get_records-write now s l short e = elim (Bool-cases ((write now s l).id == l.id)) [
  | inl same ↦
      mod-ne l.id (l.id + length (lines s)) serial_mod (omega (arith, lines_some s))
        (omega (arith, short))
        (sym (ap (λ k. k % serial_mod) ((==_iff (write now s l).id l.id).0 same))
          ∙ id-write_lines now (lines s) (prepare l)
          ∙ ap (λ k. (k + length (lines s)) % serial_mod) (id-prepare l))
  | inr other ↦
      fetch-new (slots (write now s l)) (write now s l).num_records (write now s l).max_records
        (write now s l).id l.id (rw other at e)
]
