-- ===== src/Service/Graph.antt =====
-- service.go `Matches`, `setManager` and `delManager`: the graph of dependencies and conflicts.
use govisor.Common.{
  ◌==◌, String, Bool, true, false, Option, none, some, List, [], ◌∷◌, str_eq, if◌then◌else◌,
  str_append,
}
use govisor.Common.Refs.{Ref, insert, remove}
use govisor.Name.{service_matches}
use govisor.World.{World, Env, Props, Links, Groups, Outcome, done, panic, put}
use govisor.World.Steps.{set_reason, log_line}

unfoldable pub any_matches : String → List String → Bool
any_matches check [] = false
any_matches check (p ∷ ps) = if service_matches check p then true else any_matches check ps

-- `s.Matches(check)`
unfoldable pub matches : Props → String → Bool
unfolding any_matches
matches s check = if service_matches check s.name then true else any_matches check s.provides

-- The first name of the list that the service matches: the loops that `break`.
unfoldable pub first_match : Props → List String → Option String
first_match s [] = none
first_match s (d ∷ ds) = if matches s d then some d else first_match s ds

-- Whether the service matches a name of the list: the loops that run on.
unfoldable pub matches_any : Props → List String → Bool
matches_any s [] = false
matches_any s (c ∷ cs) = if matches s c then true else matches_any s cs

-- `s.parents[d] = make(map[*Service]bool)`
unfoldable pub fresh_group : String → Groups → Groups
fresh_group d [] = (d, []) ∷ []
fresh_group d ((k, g) ∷ gs) = if str_eq k d then (k, []) ∷ gs else (k, g) ∷ fresh_group d gs

unfoldable pub fresh_groups : List String → Groups → Groups
unfolding fresh_group
fresh_groups [] gs = gs
fresh_groups (d ∷ ds) gs = fresh_groups ds (fresh_group d gs)

-- `t.parents[d][s] = true`. A managed service has a group for each of its dependencies.
unfoldable pub add_parent : String → Ref → Groups → Groups
add_parent d s [] = []
add_parent d s ((k, g) ∷ gs) =
    if str_eq k d then (k, insert s g) ∷ gs else (k, g) ∷ add_parent d s gs

-- `for p := range c.parents { delete(c.parents[p], s) }`
unfoldable pub drop_parent : Ref → Groups → Groups
drop_parent s [] = []
drop_parent s ((k, g) ∷ gs) = (k, remove s g) ∷ drop_parent s gs

-- A change of the entry of one service.
abbrev pub alter : (Ref → Links) → Ref → (Links → Links) → Ref → Links
alter links c g r = if c == r then g (links r) else links r

-- A change of the entry of each service of a list.
unfoldable pub alter_all : List Ref → (Links → Links) → (Ref → Links) → Ref → Links
alter_all [] g links = links
alter_all (c ∷ cs) g links = alter_all cs g (alter links c g)

abbrev pub add_child : Ref → Links → Links
add_child t l = record l { children = insert t l.children }

abbrev pub add_incompat : Ref → Links → Links
add_incompat t l = record l { incompat = insert t l.incompat }

-- `p.parents[d][q] = true; q.children[p] = true`: of the names `ds`, `q` matches `d` first.
unfoldable pub depend : Ref → Ref → Option String → (Ref → Links) → Ref → Links
unfolding add_parent
depend p q none links = links
depend p q (some d) links =
    alter (alter links p (λ l. record l { parents = add_parent d q l.parents })) q (add_child p)

-- `s.incompat[t] = true; t.incompat[s] = true`
unfoldable pub oppose : Ref → Ref → Bool → (Ref → Links) → Ref → Links
oppose s t false links = links
oppose s t true links = alter (alter links s (add_incompat t)) t (add_incompat s)

-- The body of the loop of `setManager` over the services `t` of the manager.
unfoldable pub link : (Ref → Props) → Ref → Ref → (Ref → Links) → Ref → Links
unfolding depend oppose first_match matches_any
link props s t links =
    let l1 = depend t s (first_match (props s) (props t).depends) links in
    let l2 = depend s t (first_match (props t) (props s).depends) l1 in
    let l3 = oppose s t (matches_any (props s) (props t).conflicts) l2 in
    oppose s t (matches_any (props t) (props s).conflicts) l3

unfoldable pub link_all : (Ref → Props) → Ref → List Ref → (Ref → Links) → Ref → Links
unfolding link
link_all props s [] links = links
link_all props s (t ∷ ts) links = link_all props s ts (link props s t links)

-- The new maps of `setManager`.
unfoldable pub fresh_links : Props → Links
unfolding fresh_groups
fresh_links p = record {
  managed = true;
  parents = fresh_groups p.depends [];
  children = [];
  incompat = [];
}

-- The bodies of the loops of `delManager`.
abbrev pub without_incompat : Ref → Links → Links
without_incompat s l = record l { incompat = remove s l.incompat }

abbrev pub without_parent : Ref → Links → Links
without_parent s l = record l { parents = drop_parent s l.parents }

abbrev pub without_child : Ref → Links → Links
without_child s l = record l { children = remove s l.children }

-- `for d, p := range s.parents { for t := range p { delete(t.children, s) } }`
unfoldable pub drop_children : Ref → Groups → (Ref → Links) → Ref → Links
unfolding alter_all
drop_children s [] links = links
drop_children s ((d, p) ∷ gs) links = drop_children s gs (alter_all p (without_child s) links)

abbrev pub no_links : Links
no_links = record { managed = false; parents = []; children = []; incompat = [] }

-- Each loop also deletes the entries of `s` that it ranges over, so `s` is left with none.
unfoldable pub unlink : Ref → (Ref → Links) → Ref → Links
unfolding alter_all drop_parent drop_children
unlink s links =
    let l1 = alter_all (links s).incompat (without_incompat s) links in
    let l2 = alter_all (links s).children (without_parent s) l1 in
    let l3 = drop_children s (links s).parents l2 in put l3 s no_links

module _ (env : Env) where
  abbrev pub added_line : Props → String → String
  added_line p mgr =
      str_append
        (str_append (str_append (str_append (str_append "Added service " p.name) " to ") mgr) ": ")
        p.desc

  unfoldable pub set_manager : Ref → World → Outcome
  unfolding link_all fresh_links
  set_manager s w =
      if (w.links s).managed
      then panic
      else (let w1 = record w {
        links = link_all w.props s w.services (put w.links s (fresh_links (w.props s)));
      } in
          let w2 =
            log_line s (added_line (w.props s) w.mgr_name) (set_reason env s "Added service" w1) in
          done (record w2 { services = insert s w2.services }))

  unfoldable pub del_manager : Ref → World → World
  unfolding unlink
  del_manager s w =
      if (w.links s).managed
      then set_reason env s "Removed service"
          (record w { services = remove s w.services; links = unlink s w.links })
      else w
