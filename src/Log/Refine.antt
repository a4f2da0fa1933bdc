-- ===== src/Log/Refine.antt =====
-- The ring of a log against the list of all that was written since it was cleared.
use govisor.Common.{
  ℕ, zero, suc, ◌+◌, ◌-◌, ◌%◌, ◌<◌, ◌≤◌, ◌==◌, ◌≡◌, ◌≢◌, refl, sym, ap, subst, ◌∙◌, String, none,
  some, List, [], ◌∷◌, ◌++◌, Bool-cases, inl, inr, leb, ==_iff, false, get_elem?, set, drop, length,
  replicate, length-set, length-replicate, length-append, arith, get_elem?-some, get_elem?-set_self,
  get_elem?-set_ne, get_elem?-append_old, get_elem?-append_new, drop_all, drop_next,
}
use native.Mathlib.Nat.{mod-lt, mod-eq_of_lt, mod-eq-sub-mod, mod-add-mod}
use govisor.World.Steps.{serial_mod}
use govisor.Log.Lines.{lines}
use govisor.Log.{
  Entry, Log, slots, max_log_records, blank, prepare, write_line, write_lines, write, clear,
  collect, get_records, fetch, records, new_log,
}

-- What a write adds to the list, from an identity and a reading of the clock on.
unfoldable pub stamped : (ℕ → ℕ) → ℕ → ℕ → List String → List Entry
stamped now i t [] = []
stamped now i t (x ∷ xs) =
    let j = (i + 1) % serial_mod in
    record { id = j; time = now t; text = x } ∷ stamped now j (suc t) xs

-- A table of `m` slots holds the newest `m` of the list `h`.
pub record IsRing (m : ℕ) (table : List Entry) (h : List Entry) : Type 0 where
  pub full : length table ≡ m
  pub window : (i : ℕ) → i < length h → length h ≤ i + m → get_elem? table (i % m) ≡ get_elem? h i

-- The log holds the newest records of the list `h`.
pub data IsLog (l : Log) (h : List Entry) : Type 0 where
  bare : l.records ≡ none → l.num_records ≡ 0 → l.max_records ≡ max_log_records → h ≡ [] → IsLog l h
  stored :
      {r : List Entry}
      → l.records ≡ some r
      → l.num_records ≡ length h
      → l.max_records ≡ max_log_records
      → IsRing max_log_records r h
      → IsLog l h

-- Numbers less than `m` apart differ modulo `m`.
pub mod-ne : (i n m : ℕ) → i < n → n < i + m → i % m ≢ n % m
mod-ne i n m a b e =
    let low = mod-lt i {m = m} (omega arith) in
    let r : ℕ = i % m in
    let k : ℕ = n - i in
    let same : (r + k) % m ≡ r = mod-add-mod i m k ∙ ap (λ x. x % m) (omega arith) ∙ sym e in
    elim (Bool-cases (leb m (r + k))) [
      | inl over ↦ ground (
        arith,
        same,
        mod-eq-sub-mod {n = r + k} {m = m} (ground arith),
        mod-eq_of_lt {n = r + k - m} {m = m} (ground (arith, low)),
      )
      | inr under ↦ ground (arith, same, mod-eq_of_lt {n = r + k} {m = m} (ground arith))
    ]

-- The slot of the next record is the oldest one.
set-IsRing :
    (m : ℕ) (table h : List Entry) (e : Entry)
    → 0 < m
    → IsRing m table h
    → IsRing m (set table (length h % m) e) (h ++ e ∷ [])
set-IsRing m table h e p ring = record {
  full = length-set table (length h % m) e ∙ ring.full;
  window = λ i a b.
      let len = length-append h (e ∷ []) in
      elim (Bool-cases (i == length h)) [
        | inl last ↦
            let same = (==_iff i (length h)).0 last in
            rw same (
              get_elem?-set_self table (length h % m) e
                (omega (arith, ring.full, mod-lt (length h) {m = m} p))
              ∙ sym (get_elem?-append_new h e))
        | inr old ↦
            let low : i < length h = ground (arith, a, len, ==_iff i (length h)) in
            get_elem?-set_ne table (length h % m) (i % m) e
              (λ q. mod-ne i (length h) m low (omega (arith, b, len)) (sym q))
            ∙ ring.window i low (omega (arith, b, len))
            ∙ sym (get_elem?-append_old h e i low)
      ];
}

-- The records from the index `k` on.
collect-IsRing :
    (m : ℕ) (table h : List Entry)
    → IsRing m table h
    → (n k : ℕ) → k + n ≡ length h
    → n ≤ m
    → collect table m k n ≡ some (drop k h)
unfolding collect
collect-IsRing m table h ring zero k e b = ap some (sym (drop_all k h (omega (arith, e))))
collect-IsRing m table h ring (suc n) k e b =
    let (x, f) = get_elem?-some h k (omega (arith, e)) in
    let one_more : k + 1 ≡ suc k = omega arith in
    rw
      (
        ring.window k (omega (arith, e)) (omega (arith, e, b)) ∙ f,
        collect-IsRing m table h ring n (k + 1) (omega (arith, e)) (omega (arith, b)),
        collect,
      )
      (ap (λ j. some (x ∷ drop j h)) one_more ∙ ap some (sym (drop_next k h x f)))

IsRing-nil : (m : ℕ) (table : List Entry) → length table ≡ m → IsRing m table []
IsRing-nil m table e = record { full = e; window = λ i a b. absurd (omega (arith, a)) }

append_one : (xs : List Entry) (y : Entry) (zs : List Entry) → (xs ++ y ∷ []) ++ zs ≡ xs ++ y ∷ zs
append_one [] y zs = refl
append_one (x ∷ xs) y zs = ap (λ t. x ∷ t) (append_one xs y zs)

append_nil : (xs : List Entry) → xs ++ [] ≡ xs
append_nil [] = refl
append_nil (x ∷ xs) = ap (λ t. x ∷ t) (append_nil xs)

-- The record that `write_line` stores.
abbrev entry : (ℕ → ℕ) → String → Log → Entry
entry now x l = record { id = (l.id + 1) % serial_mod; time = now l.tick; text = x }

module _ (now : ℕ → ℕ) where
  write_lines-IsLog :
      (xs : List String) (l : Log) (h r : List Entry)
      → l.records ≡ some r
      → l.num_records ≡ length h
      → l.max_records ≡ max_log_records
      → IsRing max_log_records r h
      → IsLog (write_lines now xs l) (h ++ stamped now l.id l.tick xs)
  unfolding write_lines write_line stamped slots
  write_lines-IsLog [] l h r e c m ring = subst (IsLog l) (sym (append_nil h)) (stored e c m ring)
  write_lines-IsLog (x ∷ xs) l h r e c m ring =
      subst (IsLog (write_lines now xs (write_line now x l)))
        (append_one h (entry now x l) (stamped now ((l.id + 1) % serial_mod) (suc l.tick) xs))
        (write_lines-IsLog xs (write_line now x l) (h ++ entry now x l ∷ [])
          (set r (length h % max_log_records) (entry now x l)) (rw (e, c, m) refl)
          (omega (arith, c, length-append h (entry now x l ∷ []))) m
          (set-IsRing max_log_records r h (entry now x l) (omega arith) ring))

  -- A write appends its lines to the list.
  pub write-IsLog :
      (s : String) (l : Log) (h : List Entry)
      → IsLog l h
      → IsLog (write now s l) (h ++ stamped now l.id l.tick (lines s))
  unfolding write prepare
  write-IsLog s l h (bare e c m n) =
      subst (λ k. IsLog (write now s l) (k ++ stamped now l.id l.tick (lines s))) (sym n)
        (rw (e, m)
          (write_lines-IsLog (lines s)
            (record l {
              max_records = max_log_records;
              records = some (replicate max_log_records blank);
              num_records = 0;
            })
            [] (replicate max_log_records blank) refl refl refl
            (IsRing-nil max_log_records _ (length-replicate max_log_records blank))))
  write-IsLog s l h (stored {r = r} e c m ring) =
      rw (e, m)
        (write_lines-IsLog (lines s) (record l { max_records = max_log_records; records = some r })
          h r refl c refl ring)

  clear-IsLog : (l : Log) (h : List Entry) → IsLog l h → IsLog (clear now l) []
  unfolding clear
  clear-IsLog l h (bare e c m n) = bare e refl m refl
  clear-IsLog l h (stored {r = r} e c m ring) = stored e refl m (IsRing-nil _ r ring.full)

fetch-IsRing :
    (m : ℕ) (table h : List Entry) (id : ℕ)
    → IsRing m table h
    → fetch table (length h) m id ≡ records (drop (length h - m) h) id
unfolding fetch
fetch-IsRing m table h id ring = elim (Bool-cases (leb (length h) m)) [
  | inl few ↦
      let zero_of : length h - length h ≡ length h - m = ground (arith, few) in
      rw
        (
          few,
          collect-IsRing m table h ring (length h) (length h - length h) (omega arith)
              (ground (arith, few)),
          fetch,
        )
        (ap (λ k. records (drop k h) id) zero_of)
  | inr many ↦
      rw
        (
          many,
          collect-IsRing m table h ring m (length h - m) (ground (arith, many)) (omega arith),
          fetch,
        )
        refl
]

get_records-IsLog :
    (l : Log) (h : List Entry) (last : ℕ)
    → IsLog l h
    → (l.id == last) ≡ false
    → get_records l last ≡ records (drop (length h - max_log_records) h) l.id
unfolding get_records slots fetch collect
get_records-IsLog l h last (bare e c m n) new = rw (new, e, c, m, n) refl
get_records-IsLog l h last (stored {r = r} e c m ring) new =
    rw (new, e, c, m, slots) (fetch-IsRing max_log_records r h l.id ring)

-- A call that changes a log.
pub data Op : Type 0 where
  writes : String → Op
  clears : Op

unfoldable pub run : (ℕ → ℕ) → List Op → Log → Log
run now [] l = l
run now (writes s ∷ ops) l = run now ops (write now s l)
run now (clears ∷ ops) l = run now ops (clear now l)

-- All that was written since the last clear, with `h` before.
unfoldable pub history : (ℕ → ℕ) → List Op → Log → List Entry → List Entry
unfolding stamped
history now [] l h = h
history now (writes s ∷ ops) l h =
    history now ops (write now s l) (h ++ stamped now l.id l.tick (lines s))
history now (clears ∷ ops) l h = history now ops (clear now l) []

run-IsLog :
    (now : ℕ → ℕ) (ops : List Op) (l : Log) (h : List Entry)
    → IsLog l h
    → IsLog (run now ops l) (history now ops l h)
unfolding run history
run-IsLog now [] l h i = i
run-IsLog now (writes s ∷ ops) l h i = run-IsLog now ops _ _ (write-IsLog now s l h i)
run-IsLog now (clears ∷ ops) l h i = run-IsLog now ops _ _ (clear-IsLog now l h i)

-- For any clock and any sequence of Write and Clear on a log that NewLog makes, GetRecords with
-- an identity that is not the current one answers, without an index out of range, the newest
-- 1000 records, in order, of all that was written since the last Clear, and the current
-- identity.
pub get_records-run :
    (now : ℕ → ℕ) (ops : List Op) (start last : ℕ)
    → ((run now ops (new_log start)).id == last) ≡ false
    → get_records (run now ops (new_log start)) last
      ≡ records
          (drop
            (length (history now ops (new_log start) []) - max_log_records)
            (history now ops (new_log start) []))
          (run now ops (new_log start)).id
get_records-run now ops start last new =
    get_records-IsLog _ _ last (run-IsLog now ops (new_log start) [] (bare refl refl refl refl)) new
