-- ===== src/MultiLog/Deliver.antt =====
-- multilog.go: which logger prints which line.
use govisor.Common.{
  subst, String, Bool, true, false, ◌==◌, ==_iff, ◌≡◌, refl, ap, ◌∙◌, List, [], ◌∷◌, ◌++◌,
  if◌then◌else◌, arith, Bool-cases, inl, inr,
}
use govisor.Common.Refs.{Ref, contains, contains-append_one}
use govisor.Log.Lines.{lines}
use govisor.MultiLog.{add_logger, del_logger, Print, print_all, print_lines, write}

-- A call that changes the list of loggers.
pub data Op : Type 0 where
  adds dels : Ref → Op

unfoldable pub loggers : List Op → List Ref → List Ref
unfolding add_logger del_logger
loggers [] ls = ls
loggers (adds r ∷ ops) ls = loggers ops (add_logger r ls)
loggers (dels r ∷ ops) ls = loggers ops (del_logger r ls)

-- What a logger prints of a sequence of prints.
unfoldable pub printed : Ref → List Print → List String
printed r [] = []
printed r (p ∷ ps) = if p.to == r then p.line ∷ printed r ps else printed r ps

unfoldable pub distinct : List Ref → Bool
distinct [] = true
distinct (x ∷ xs) = if contains x xs then false else distinct xs

distinct-append :
    (r : Ref) (ls : List Ref)
    → distinct ls ≡ true
    → contains r ls ≡ false
    → distinct (ls ++ r ∷ []) ≡ true
unfolding distinct contains
distinct-append r [] d n = refl
distinct-append r (x ∷ ls) d n =
    ground (arith, d, n, contains-append_one r x ls, distinct-append r ls, ==_iff r x, ==_iff x r)

contains-del_logger :
    (x r : Ref) (ls : List Ref) → contains x ls ≡ false → contains x (del_logger r ls) ≡ false
unfolding del_logger contains
contains-del_logger x r [] n = refl
contains-del_logger x r (y ∷ ls) n = ground (arith, n, contains-del_logger x r ls)

distinct-del_logger :
    (r : Ref) (ls : List Ref) → distinct ls ≡ true → distinct (del_logger r ls) ≡ true
unfolding del_logger distinct
distinct-del_logger r [] d = refl
distinct-del_logger r (x ∷ ls) d =
    ground (arith, d, contains-del_logger x r ls, distinct-del_logger r ls)

distinct-add_logger :
    (r : Ref) (ls : List Ref) → distinct ls ≡ true → distinct (add_logger r ls) ≡ true
unfolding add_logger
distinct-add_logger r ls d = elim (Bool-cases (contains r ls)) [
  | inl in_ ↦ rw in_ d
  | inr out ↦ rw out (distinct-append r ls d out)
]

distinct-loggers :
    (ops : List Op) (ls : List Ref) → distinct ls ≡ true → distinct (loggers ops ls) ≡ true
unfolding loggers
distinct-loggers [] ls d = d
distinct-loggers (adds r ∷ ops) ls d =
    distinct-loggers ops (add_logger r ls) (distinct-add_logger r ls d)
distinct-loggers (dels r ∷ ops) ls d =
    distinct-loggers ops (del_logger r ls) (distinct-del_logger r ls d)

printed-append :
    (r : Ref) (ps qs : List Print) → printed r (ps ++ qs) ≡ printed r ps ++ printed r qs
unfolding printed
printed-append r [] qs = refl
printed-append r (p ∷ ps) qs = elim (Bool-cases (p.to == r)) [
  | inl mine ↦ rw mine (ap (λ t. p.line ∷ t) (printed-append r ps qs))
  | inr other ↦ rw other (printed-append r ps qs)
]

printed-print_all :
    (r : Ref) (x : String) (ls : List Ref)
    → distinct ls ≡ true
    → printed r (print_all x ls) ≡ (if contains r ls then x ∷ [] else [])
unfolding printed print_all distinct contains
printed-print_all r x [] d = refl
printed-print_all r x (l ∷ ls) d = elim (Bool-cases (l == r)) [
  | inl mine ↦ rw mine (
      ap (λ t. x ∷ t)
        (printed-print_all r x ls (ground (arith, d)) ∙ ground (arith, d, (==_iff l r).0 mine)))
  | inr other ↦ rw other (printed-print_all r x ls (ground (arith, d)))
]

printed-print_lines :
    (r : Ref) (xs : List String) (ls : List Ref)
    → distinct ls ≡ true
    → printed r (print_lines xs ls) ≡ (if contains r ls then xs else [])
unfolding print_lines printed
printed-print_lines r [] ls d = ground arith
printed-print_lines r (x ∷ xs) ls d =
    printed-append r (print_all x ls) (print_lines xs ls)
    ∙ ground (arith, printed-print_all r x ls d, printed-print_lines r xs ls d)

-- Whether the last of the calls that name a logger has added it; without one, it is as before.
unfoldable pub registered : Ref → List Op → Bool → Bool
registered r [] b = b
registered r (adds x ∷ ops) b = registered r ops (if x == r then true else b)
registered r (dels x ∷ ops) b = registered r ops (if x == r then false else b)

contains-add_logger :
    (r x : Ref) (ls : List Ref)
    → contains r (add_logger x ls) ≡ (if x == r then true else contains r ls)
unfolding add_logger
contains-add_logger r x ls = elim (Bool-cases (contains x ls)) [
  | inl in_ ↦ rw in_ (elim (Bool-cases (x == r)) [
    | inl e ↦ rw e (subst (λ k. contains k ls ≡ true) ((==_iff x r).0 e) in_)
    | inr e ↦ rw e refl
  ])
  | inr out ↦ rw out (contains-append_one x r ls)
]

contains-del_logger_eq :
    (r x : Ref) (ls : List Ref)
    → distinct ls ≡ true
    → contains r (del_logger x ls) ≡ (if x == r then false else contains r ls)
unfolding del_logger contains distinct
contains-del_logger_eq r x [] d = ground arith
contains-del_logger_eq r x (y ∷ ls) d =
    ground (arith, d, contains-del_logger_eq r x ls, ==_iff y x, ==_iff y r, ==_iff x r, ==_iff r y)

contains-loggers :
    (r : Ref) (ops : List Op) (ls : List Ref)
    → distinct ls ≡ true
    → contains r (loggers ops ls) ≡ registered r ops (contains r ls)
unfolding loggers registered
contains-loggers r [] ls d = refl
contains-loggers r (adds x ∷ ops) ls d =
    contains-loggers r ops (add_logger x ls) (distinct-add_logger x ls d)
    ∙ ap (registered r ops) (contains-add_logger r x ls)
contains-loggers r (dels x ∷ ops) ls d =
    contains-loggers r ops (del_logger x ls) (distinct-del_logger x ls d)
    ∙ ap (registered r ops) (contains-del_logger_eq r x ls d)

-- Behind any sequence of AddLogger and DelLogger on a new MultiLogger, Write makes a logger
-- print each line of the text once, in order, if the last of these calls that names it has added
-- it, and nothing if that call has deleted it or no call names it.
pub printed-write :
    (ops : List Op) (s : String) (r : Ref)
    → printed r (write s (loggers ops [])) ≡ (if registered r ops false then lines s else [])
unfolding write distinct contains
printed-write ops s r =
    printed-print_lines r (lines s) (loggers ops []) (distinct-loggers ops [] refl)
    ∙ ap (λ b. if b then lines s else []) (contains-loggers r ops [] refl)
