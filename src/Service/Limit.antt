-- ===== src/Service/Limit.antt =====
-- service.go `tooQuickly`: the limit on the rate of starts.
use govisor.Common.{
  ℕ, suc, ◌+◌, ◌-◌, ◌%◌, Bool, true, false, Option, none, some, ◌==◌, ltb, leb, if◌then◌else◌,
  get_elem?, set, str_append,
}
use govisor.Common.Refs.{Ref}
use govisor.World.{World, Env, ℤ, pos, negsuc, Rate}
use govisor.World.Steps.{set_rate, log_line}

-- What `tooQuickly` answers: nil, ErrRateLimited, or an index out of range.
pub data Pace : Type 0 where
  free limited out_of_range : Pace

abbrev pub is_zero : ℤ → Bool
is_zero (pos n) = n == 0
is_zero (negsuc n) = false

-- `starts < limit`
abbrev pub below_limit : ℕ → ℤ → Bool
below_limit n (pos k) = ltb n k
below_limit n (negsuc k) = false

-- The absolute value, which decides a Go remainder.
abbrev pub abs : ℤ → ℕ
abs (pos n) = n
abs (negsuc n) = suc n

-- `(starts - back) % limit` as an index; a negative remainder is none.
abbrev pub index_back : ℕ → ℕ → ℤ → Option ℕ
index_back starts back limit =
    if leb back starts
    then some ((starts - back) % abs limit)
    else (if (back - starts) % abs limit == 0 then some 0 else none)

-- `s.startTimes[(s.starts - back) % s.rateLimit]`, or none if it panics.
unfoldable pub start_back : Rate → ℕ → Option ℕ
start_back x back = elim (index_back x.starts back x.rate_limit) [
  | none ↦ none
  | some i ↦ get_elem? x.start_times i
]

-- `now.Before(end.Add(period))`
abbrev pub within : ℕ → ℕ → ℤ → Bool
within now end (pos p) = ltb now (end + p)
within now end (negsuc p) = ltb (now + suc p) end

module _ (env : Env) where
  abbrev pub read_clock : World → World
  read_clock w = record w { tick = suc w.tick }

  -- The second test, made while in cool down.
  unfoldable pub cool_down : Ref → World → Pace × World
  cool_down s w =
      let x = w.rate s in
      elim (start_back x 2) [
        | none ↦ (out_of_range, w)
        | some end ↦
            let w' = read_clock w in
            if within (env.now w.tick) end x.rate_period
            then (limited, w')
            else (free, set_rate s (record x { rate_log = false }) w')
      ]

  abbrev note_limited : Ref → World → World
  note_limited s w =
      let x = w.rate s in
      let w' =
        if x.rate_log
        then w
        else log_line s
            (str_append (str_append "Service " (w.props s).name) " restarting too quickly") w in
      set_rate s (record x { rate_log = true }) w'

  unfoldable pub last_start : Ref → World → Pace × World
  unfolding cool_down
  last_start s w =
      let x = w.rate s in
      elim (start_back x 1) [
        | none ↦ (out_of_range, w)
        | some end ↦
            let w' = read_clock w in
            if within (env.now w.tick) end x.rate_period
            then (limited, note_limited s w')
            else (if x.rate_log then cool_down s w' else (free, w'))
      ]

  unfoldable pub too_quickly : Ref → World → Pace × World
  unfolding last_start
  too_quickly s w =
      let x = w.rate s in
      if is_zero x.rate_limit
      then (free, w)
      else (if below_limit x.starts x.rate_limit then (free, w) else last_start s w)

  -- `s.starts++`
  abbrev pub count_start : Ref → World → World
  count_start s w = set_rate s (record (w.rate s) { starts = (w.rate s).starts + 1 }) w

  -- `s.startTimes[s.starts%k] = time.Now()`, where the slot is there.
  abbrev pub stamp_start : Ref → ℕ → World → World
  stamp_start s k w =
      let x = w.rate s in
      set_rate s (record x { start_times = set x.start_times (x.starts % k) (env.now w.tick) })
        (read_clock w)

  -- `if s.rateLimit > 0 { … }`, then `s.starts++`; `none` if the slot is out of range.
  unfoldable pub record_start : Ref → World → Option World
  record_start s w = elim (w.rate s).rate_limit [
    | negsuc k ↦ some (count_start s w)
    | pos k ↦
        if k == 0
        then some (count_start s w)
        else (elim (get_elem? (w.rate s).start_times ((w.rate s).starts % k)) [
          | none ↦ none
          | some old ↦ some (count_start s (stamp_start s k w))
        ])
  ]
