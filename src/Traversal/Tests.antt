-- ===== src/Traversal/Tests.antt =====
-- The walks over a plan with four nodes on three levels.
use pg_plansight.Prelude.{
  ℕ, suc, ◌+◌, ◌-◌, ◌<◌, ◌≡◌, refl, ◌↔◌, Bool, true, none, some, List, [], ◌∷◌, ◌++◌, map, arith,
  ltb, if◌then◌else◌, length, get_elem?, take,
}
use pg_plansight.Traversal.{
  child_at, children, PlanNode, node, Children, no_children, child, NodePath, root, NodeVisitor,
  NodeCollector, depth_first, collect, find_nodes, get_nodes_at_depth, get_node_at_path,
}
use pg_plansight.Traversal.Preorder.{
  preorder, selected, gather, find_nodes-preorder, collect-preorder,
}
use pg_plansight.Traversal.Visits.{walk, depth_first-walk}
use pg_plansight.Traversal.Levels.{level, get_nodes_at_depth-level}
use pg_plansight.Traversal.Paths.{find_nodes-get_node_at_path}
use pg_plansight.Traversal.Relations.{get_ancestors, get_descendants, is_ancestor}
use pg_plansight.Traversal.Ancestry.{is_ancestor_lem, get_descendants-preorder, get_ancestors_lem}

abbrev named : ℕ → Children → PlanNode
named name cs = node (record { description = name ∷ []; original_text = [] }) cs

abbrev plan : PlanNode
plan = named 1 (
    child (named 2 (child (named 3 no_children) no_children))
      (child (named 4 no_children) no_children))

abbrev long : PlanNode → Bool
long (node details cs) = ltb 2 (length details.description + length details.original_text + 2)

-- The visitor that writes down what is called on it.
abbrev recorder : NodeVisitor (List (ℕ × PlanNode))
recorder = record {
  enter_node = λ v n p. v ++ ((0, n) ∷ []);
  visit_node = λ v n p. v ++ ((1, n) ∷ []);
  exit_node = λ v n p. v ++ ((2, n) ∷ []);
}

abbrev counter : NodeCollector PlanNode ℕ
counter = λ c n p. (if ltb c 3 then some n else none, c + 1)

depth_first-walk_example : depth_first recorder 12 plan [] ≡ some (walk recorder [] plan root)
depth_first-walk_example = depth_first-walk recorder 12 plan [] (omega arith)

collect-preorder_example : collect counter 4 plan 0 ≡ some (gather counter 0 (preorder plan root))
collect-preorder_example = collect-preorder counter 4 plan 0 (omega arith)

find_nodes-preorder_example : find_nodes long 4 plan ≡ some (selected long (preorder plan root))
find_nodes-preorder_example = find_nodes-preorder long 4 plan (omega arith)

get_nodes_at_depth-level_example : get_nodes_at_depth 4 plan 2 ≡ some (level 2 plan root)
get_nodes_at_depth-level_example = get_nodes_at_depth-level 4 plan 2 (omega arith)

find_nodes-get_node_at_path_example :
    (results : List (PlanNode × NodePath)) × (find_nodes long 4 plan ≡ some results)
    × ((i : ℕ) (n : PlanNode) (p : NodePath)
        → get_elem? results i ≡ some (n, p)
        → (get_node_at_path plan p.path ≡ some n) × (long n ≡ true))
find_nodes-get_node_at_path_example = find_nodes-get_node_at_path long 4 plan (omega arith)

abbrev at : List ℕ → NodePath
at path = record { path = path; text = [] }

is_ancestor_example :
    (is_ancestor (at (0 ∷ [])) (at (0 ∷ 0 ∷ [])) ≡ true)
    ↔ ((x : ℕ) × (ys : List ℕ) × ((0 ∷ 0 ∷ []) ≡ (0 ∷ []) ++ (x ∷ ys)))
is_ancestor_example = is_ancestor_lem (at (0 ∷ [])) (at (0 ∷ 0 ∷ []))

get_descendants-preorder_example :
    map (λ entry. entry.0) (preorder plan root) ≡ plan ∷ get_descendants plan
get_descendants-preorder_example = get_descendants-preorder plan root

get_ancestors_example :
    (ancestors : List PlanNode) × (get_ancestors 2 plan (at (0 ∷ 0 ∷ [])) ≡ some ancestors)
    × (length ancestors ≡ 2)
    × ((k : ℕ)
        → k < 2
        → get_elem? ancestors k ≡ get_node_at_path plan (take (2 - suc k) (0 ∷ 0 ∷ [])))
unfolding get_node_at_path child_at children
get_ancestors_example =
    get_ancestors_lem 2 plan (named 3 no_children) (at (0 ∷ 0 ∷ [])) (omega arith) refl
