-- ===== src/Config/Cycles.antt =====
-- assertAcyclicPackageGraph of internal/config/config.go: the depth-first search, on fuel. `state`
-- has the names that are not in stateNone.
use hooversion.Common.{
  ℕ, zero, suc, List, [], ◌∷◌, ◌++◌, none, some, length, if◌then◌else◌, Result, ok, err, ◌>>=◌, map,
}
use hooversion.Config.{Error, dependency_cycle, out_of_fuel, normalize_graph_name}
use hooversion.Text.Maps.{TextMap, lookup, insert}
use hooversion.Text.{Text, text_eq}
use hooversion.Types.{NormalizedPackageConfig}

pub data Color : Type 0 where
  visiting visited : Color

-- state and stack
pub record Search : Type 0 where
  pub state : TextMap Color
  pub stack : List Text

-- graph[name], nil for a missing key
abbrev pub edges : TextMap (List Text) → Text → List Text
edges graph name = elim (lookup name graph) [ none ↦ [] | some deps ↦ deps ]

-- stack[start:] for the first index of the name
drop_until : Text → List Text → List Text
drop_until name [] = []
drop_until name (n ∷ stack) = if text_eq n name then n ∷ stack else drop_until name stack

-- stack[:len(stack)-1]
drop_last : List Text → List Text
drop_last [] = []
drop_last (n ∷ []) = []
drop_last (n ∷ m ∷ stack) = n ∷ drop_last (m ∷ stack)

abbrev pub entered : Text → Search → Search
entered name s = record { state = insert name visiting s.state; stack = s.stack ++ name ∷ [] }

unfoldable pub left_behind : Text → Search → Search
unfolding drop_last
left_behind name s = record { state = insert name visited s.state; stack = drop_last s.stack }

-- cycle
unfoldable pub cycle_of : Text → Search → List Text
unfolding drop_until
cycle_of name s = drop_until name s.stack ++ name ∷ []

-- the loop over names, for a given visit
unfoldable pub visit_each :
    (Text → Search → Result Error Search) → List Text → Search → Result Error Search
visit_each step [] s = ok s
visit_each step (name ∷ names) s = step name s >>= visit_each step names

-- visit; one more than the number of names is enough fuel
unfoldable pub visit : ℕ → TextMap (List Text) → Text → Search → Result Error Search
visit zero graph name s = err out_of_fuel
visit (suc fuel) graph name s = elim (lookup name s.state) [
  | some color ↦ elim color [ visited ↦ ok s | visiting ↦ err (dependency_cycle (cycle_of name s)) ]
  | none ↦ visit_each (visit fuel graph) (edges graph name) (entered name s) >>= λ t.
      ok (left_behind name t)
]

abbrev pub nothing_seen : Search
nothing_seen = record { state = []; stack = [] }

-- assertAcyclicPackageGraph
unfoldable pub assert_acyclic_package_graph :
    (ℕ → ℕ) → List NormalizedPackageConfig → TextMap (List Text) → Result Error (Unit {0})
assert_acyclic_package_graph lower packages graph =
    visit_each (visit (suc (length packages)) graph)
      (map (λ pkg. normalize_graph_name lower pkg.name) packages) nothing_seen
    >>= λ s. ok tt
