-- ===== src/Client/Keep.antt =====
-- rest/client.go `pollServices`: what stays of the services that were kept.
use govisor.Common.{
  String, Bool, true, false, ◌≡◌, ◌≢◌, refl, subst, ap, ◌∙◌, Option, none, some, List, [], ◌∷◌,
  arith, Bool-cases, Option-cases, inl, inr, if◌then◌else◌, str_eq, eq_iff,
}
use govisor.Common.Table.{Table, lookup, delete, store, lookup-delete, lookup-store}
use govisor.Server.Http.{ServiceInfo}
use govisor.Client.Http.{Web, answered}
use govisor.Client.Cache.{Client, Tagged, keep, end_services}

unfoldable pub mentions : String → List String → Bool
mentions n [] = false
mentions n (x ∷ xs) = if str_eq x n then true else mentions n xs

-- The first of two values that is there.
abbrev or_else : {A : Type 0} → Option A → Option A → Option A
or_else none y = y
or_else (some x) y = some x

or_else-none : {A : Type 0} (o : Option A) → or_else o none ≡ o
or_else-none none = refl
or_else-none (some x) = refl

if_same : {A : Type 0} (b : Bool) (x : A) → (if b then x else x) ≡ x
if_same true x = refl
if_same false x = refl

lookup-keep :
    (web : Web) (n : String) (ns : List String) (old new : Table (Tagged ServiceInfo))
    → lookup n (keep web ns old new)
      ≡ (if mentions n ns then or_else (lookup n old) (lookup n new) else lookup n new)
unfolding keep mentions
lookup-keep web n [] old new = refl
lookup-keep web n (k ∷ ns) old new = elim (Option-cases (lookup k old)) [
  | inl e ↦
      rw (e, keep)
        (lookup-keep web n ns old new ∙ elim (Bool-cases (str_eq k n)) [
          | inl f ↦
              let gone = subst (λ j. lookup j old ≡ none) ((eq_iff k n).0 f) e in
              rw (f, gone) (if_same (mentions n ns) (lookup n new))
          | inr f ↦ rw f refl
        ])
  | inr (x, e) ↦
      rw (e, keep)
        (lookup-keep web n ns (delete k old) (store k x new) ∙ elim (Bool-cases (str_eq k n)) [
          | inl f ↦
              let found = subst (λ j. lookup j old ≡ some x) ((eq_iff k n).0 f) e in
              rw (lookup-delete n k old, lookup-store n k x new, f, found)
                (if_same (mentions n ns) (some x))
          | inr f ↦ rw (lookup-delete n k old, lookup-store n k x new, f) refl
        ])
]

-- When pollServices receives a list under a new tag that is not empty, the client keeps just
-- those of its services that are in the list, each as it was.
pub end_services-lookup :
    (web : Web) (otag tag n : String) (onames v : List String) (c : Client)
    → tag ≢ ""
    → tag ≢ otag
    → lookup n (end_services web otag onames (answered tag v) c).1.services
      ≡ (if mentions n v then lookup n c.services else none)
unfolding end_services
end_services-lookup web otag tag n onames v c some_tag new =
    let tagged : str_eq tag "" ≡ false = ground (arith, some_tag, eq_iff tag "") in
    let other : str_eq tag otag ≡ false = ground (arith, new, eq_iff tag otag) in
    rw (tagged, other, end_services)
      (lookup-keep web n v c.services []
        ∙ ap (λ o. if mentions n v then o else none) (or_else-none (lookup n c.services)))
