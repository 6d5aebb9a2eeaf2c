-- ===== src/Traversal/Relations.antt =====
-- `NodeRelationshipAnalyzer` of crates/core/src/analysis/traversal.rs: parents, siblings, ancestors
-- and descendants.
use pg_plansight.Prelude.{
  ℕ, zero, suc, ◌-◌, Bool, false, Option, none, some, List, [], ◌∷◌, ◌++◌, leb, ◌==◌, if◌then◌else◌,
  length, take, bytes_eq,
}
use pg_plansight.Traversal.{
  PlanNode, node, Children, no_children, child, children, NodePath, get_node_at_path,
}

-- None for the root, else the node at the path without its last index.
unfoldable pub get_parent : PlanNode → NodePath → Option PlanNode
get_parent plan p =
    if length p.path == 0 then none else get_node_at_path plan (take (length p.path - 1) p.path)

-- `unwrap_or(&0)` of the last index.
unfoldable pub last_or_zero : List ℕ → ℕ
last_or_zero [] = 0
last_or_zero (i ∷ []) = i
last_or_zero (i ∷ j ∷ path) = last_or_zero (j ∷ path)

-- The children but one, counted from an index on.
unfoldable pub except : ℕ → ℕ → Children → List PlanNode
except self_index i no_children = []
except self_index i (child c cs) =
    let rest = except self_index (suc i) cs in if i == self_index then rest else c ∷ rest

unfoldable pub siblings_under : NodePath → Option PlanNode → List PlanNode
siblings_under p none = []
siblings_under p (some parent) = except (last_or_zero p.path) 0 (children parent)

unfoldable pub get_siblings : PlanNode → NodePath → List PlanNode
get_siblings plan p = siblings_under p (get_parent plan p)

-- `Vec::pop`.
unfoldable pub pop : List ℕ → List ℕ
pop [] = []
pop (i ∷ []) = []
pop (i ∷ j ∷ path) = i ∷ pop (j ∷ path)

abbrev pub or_skip : Option PlanNode → List PlanNode
or_skip none = []
or_skip (some ancestor) = ancestor ∷ []

-- The loop, on fuel, and none when it is used up.
unfoldable pub ancestors_loop : PlanNode → ℕ → List PlanNode → List ℕ → Option (List PlanNode)
ancestors_loop plan fuel ancestors [] = some ancestors
ancestors_loop plan zero ancestors (i ∷ path) = none
ancestors_loop plan (suc fuel) ancestors (i ∷ path) =
    let parent_path = pop (i ∷ path) in
    ancestors_loop plan fuel (ancestors ++ or_skip (get_node_at_path plan parent_path)) parent_path

unfoldable pub get_ancestors : ℕ → PlanNode → NodePath → Option (List PlanNode)
get_ancestors fuel plan p = ancestors_loop plan fuel [] p.path

abbrev mutual
  pub get_descendants : PlanNode → List PlanNode
  get_descendants (node details cs) = descendants_of cs

  pub descendants_of : Children → List PlanNode
  descendants_of no_children = []
  descendants_of (child c cs) = c ∷ (get_descendants c ++ descendants_of cs)

unfoldable pub is_ancestor : NodePath → NodePath → Bool
is_ancestor ancestor descendant =
    if leb (length descendant.path) (length ancestor.path)
    then false
    else bytes_eq (take (length ancestor.path) descendant.path) ancestor.path
