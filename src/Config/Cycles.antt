-- ===== src/Config/Cycles.antt =====
-- internal/scd/config/rules.go: findCycles, the depth-first search for the cycles of dependsOn, and
-- dependencies, what a source depends on.
pub mod Ends
pub mod Marks
pub mod Topological
pub mod Acyclic
pub mod Clear
pub mod Walks
use scd.Prelude.{
  ℕ, zero, suc, ◌+◌, String, Bool, true, false, Option, none, some, List, [], ◌∷◌, ◌++◌, ◌==◌,
  string_eq, ltb, if◌then◌else◌, ◌>>=◌, contains, length, take, drop, append, lookup,
}

-- map[string][]string
abbrev pub Edges : Type 0
Edges = List (String × List String)

abbrev pub found : Option (List String) → List String
found none = []
found (some ids) = ids

-- edges[id]
unfoldable pub targets : Edges → String → List String
targets edges id = found (lookup id edges)

pub data Mark : Type 0 where
  unseen active done : Mark

-- What the closure visit changes; its path is an argument, since a visit takes off what it put on.
pub record Search : Type 0 where
  pub mark : String → Mark
  pub reported : List String
  pub cycles : List (List String)

unfoldable pub set_mark : String → Mark → Search → Search
set_mark id k s = record s { mark = λ v. if id == v then k else s.mark v }

-- strings.Join(cycle, " ")
unfoldable pub join : List String → String
join [] = ""
join (x ∷ []) = x
join (x ∷ y ∷ ys) = append x (append " " (join (y ∷ ys)))

-- index[c], which is 0 for a node that is not in order.
unfoldable pub position : ℕ → List String → String → ℕ
position i [] c = 0
position i (x ∷ xs) c = let rest = position (suc i) xs c in if x == c then i else rest

-- path[slices.Index(path, next):]
unfoldable pub from_first : String → List String → List String
from_first next [] = []
from_first next (x ∷ xs) = let rest = from_first next xs in if x == next then x ∷ xs else rest

-- The loop that finds the place of the node first in order: its place and its index so far.
unfoldable pub first_place : (String → ℕ) → ℕ → ℕ → ℕ → List String → ℕ
first_place index i first least [] = first
first_place index i first least (c ∷ cs) =
    if ltb (index c) least
    then first_place index (suc i) i (index c) cs
    else first_place index (suc i) first least cs

unfoldable pub rotate : (String → ℕ) → List String → List String
unfolding first_place
rotate index [] = []
rotate index (c ∷ cs) =
    let first = first_place index 1 0 (index c) cs in drop first (c ∷ cs) ++ take first (c ∷ cs)

unfoldable pub report_cycle : List String → Search → Search
unfolding join
report_cycle cycle s =
    if contains s.reported (join cycle)
    then s
    else record s { reported = join cycle ∷ s.reported; cycles = s.cycles ++ cycle ∷ [] }

-- The cycle that ends with an edge to next, rotated to the node first in order.
unfoldable pub cycle_at : List String → List String → String → List String
unfolding position from_first rotate
cycle_at order path next = rotate (position 0 order) (from_first next path)

unfoldable pub note_cycle : List String → List String → String → Search → Search
unfolding cycle_at report_cycle
note_cycle order path next s = report_cycle (cycle_at order path next) s

-- One pass of the loop over edges[id], by the mark of the next node.
unfoldable pub follow :
    List String
    → List String
    → (String → Search → Option Search)
    → Mark
    → String
    → Search
    → Option Search
follow order path visit unseen next s = visit next s
follow order path visit active next s = some (note_cycle order path next s)
follow order path visit done next s = some s

unfoldable pub follow_all :
    List String
    → List String
    → (String → Search → Option Search)
    → List String
    → Search
    → Option Search
follow_all order path visit [] s = some s
follow_all order path visit (next ∷ rest) s =
    follow order path visit (s.mark next) next s >>= follow_all order path visit rest

-- The closure visit, with fuel: none means that the fuel ran out.
unfoldable pub visit : List String → Edges → ℕ → List String → String → Search → Option Search
visit order edges zero path id s = none
visit order edges (suc fuel) path id s =
    let path' = path ++ id ∷ [] in
    follow_all order path' (visit order edges fuel path') (targets edges id) (set_mark id active s)
    >>= λ t. some (set_mark id done t)

-- The loop over order.
unfoldable pub root : (String → Search → Option Search) → Mark → String → Search → Option Search
root visit unseen id s = visit id s
root visit active id s = some s
root visit done id s = some s

unfoldable pub visit_roots :
    (String → Search → Option Search) → List String → Search → Option Search
visit_roots visit [] s = some s
visit_roots visit (id ∷ rest) s = root visit (s.mark id) id s >>= visit_roots visit rest

abbrev pub no_marks : Search
no_marks = record { mark = λ v. unseen; reported = []; cycles = [] }

-- Every node that the search can meet.
unfoldable pub edge_ends : Edges → List String
edge_ends [] = []
edge_ends ((from, to) ∷ rest) = to ++ edge_ends rest

unfoldable pub nodes : List String → Edges → List String
unfolding edge_ends
nodes order edges = order ++ edge_ends edges

unfoldable pub search_from : List String → Edges → ℕ → Option Search
search_from order edges fuel = visit_roots (visit order edges fuel []) order no_marks

unfoldable pub find_cycles : List String → Edges → Option (List (List String))
unfolding search_from nodes
find_cycles order edges =
    search_from order edges (length (nodes order edges)) >>= λ s. some s.cycles

-- The closure walk of dependencies: the nodes seen, and those found, in order.
pub record Walked : Type 0 where
  pub seen : List String
  pub out : List String

unfoldable pub walk_all : (String → Walked → Option Walked) → List String → Walked → Option Walked
walk_all walk [] w = some w
walk_all walk (d ∷ ds) w =
    (if contains w.seen d
      then some w
      else walk d (record { seen = d ∷ w.seen; out = w.out ++ d ∷ [] }))
    >>= walk_all walk ds

-- With fuel: none means that it ran out.
unfoldable pub walk : Edges → ℕ → String → Walked → Option Walked
walk edges zero id w = none
walk edges (suc fuel) id w = walk_all (walk edges fuel) (targets edges id) w

-- dependencies, with one unit of fuel for each node that can be found and one for the first.
unfoldable pub dependencies : String → Edges → Option (List String)
unfolding walk edge_ends
dependencies id edges =
    walk edges (suc (length (edge_ends edges))) id (record { seen = id ∷ []; out = [] }) >>= λ w.
    some w.out
