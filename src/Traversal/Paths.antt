-- ===== src/Traversal/Paths.antt =====
-- The paths that the walks of crates/core/src/analysis/traversal.rs report, followed by
-- `get_node_at_path`.
use pg_plansight.Prelude.{
  ℕ, zero, suc, ◌+◌, ◌≤◌, ◌≡◌, refl, ap, subst, ◌∙◌, inl, inr, Bool, true, some, List, [], ◌∷◌,
  ◌++◌, arith, and_then, Bool-cases, Option-cases, get_elem?, drop,
}
use mathlib.Core.Option.{some-injective, none-ne-some}
use pg_plansight.Traversal.{
  PlanNode, node, Children, no_children, child, children, description, NodePath, root, child_of,
  keep_if, find_nodes, child_at, get_node_at_path,
}
use pg_plansight.Traversal.Preorder.{size, preorder, preorders, selected, find_nodes-preorder}

pub get_node_at_path-append :
    (n : PlanNode) (xs ys : List ℕ)
    → get_node_at_path n (xs ++ ys) ≡ and_then (get_node_at_path n xs) (λ m. get_node_at_path m ys)
unfolding get_node_at_path
get_node_at_path-append n [] ys = refl
get_node_at_path-append n (x ∷ xs) ys = elim (Option-cases (child_at (children n) x)) [
  | inl out ↦ rw out refl
  | inr (c, found) ↦ rw found (get_node_at_path-append c xs ys)
]

-- The path of every entry leads to its node.
data Lead (plan : PlanNode) : List (PlanNode × NodePath) → Type 0 where
  lead_nil : Lead plan []
  lead_cons :
      (n : PlanNode) (p : NodePath) (entries : List (PlanNode × NodePath))
      → get_node_at_path plan p.path ≡ some n
      → Lead plan entries
      → Lead plan ((n, p) ∷ entries)

append-Lead :
    (plan : PlanNode) (xs ys : List (PlanNode × NodePath))
    → Lead plan xs
    → Lead plan ys
    → Lead plan (xs ++ ys)
append-Lead plan _ ys lead_nil b = b
append-Lead plan _ ys (lead_cons n p xs at a) b =
    lead_cons n p (xs ++ ys) at (append-Lead plan xs ys a b)

child_of-leads :
    (plan : PlanNode) (n c : PlanNode) (p : NodePath) (index : ℕ) (text : List ℕ)
    → get_node_at_path plan p.path ≡ some n
    → child_at (children n) index ≡ some c
    → get_node_at_path plan (child_of p index text).path ≡ some c
unfolding get_node_at_path
child_of-leads plan n c p index text at found =
    get_node_at_path-append plan p.path (index ∷ [])
    ∙ ap (λ o. and_then o (λ m. get_node_at_path m (index ∷ []))) at
    ∙ ap (λ o. and_then o (λ m. some m)) found

mutual
  unfolding children child_at

  preorder-Lead :
      (plan n : PlanNode) (p : NodePath)
      → get_node_at_path plan p.path ≡ some n
      → Lead plan (preorder n p)
  preorder-Lead plan (node details cs) p at =
      lead_cons (node details cs) p (preorders p 0 cs) at
        (preorders-Lead plan (node details cs) p 0 cs at (λ j. ap (child_at cs) (omega arith)))

  preorders-Lead :
      (plan n : PlanNode) (p : NodePath) (index : ℕ) (cs : Children)
      → get_node_at_path plan p.path ≡ some n
      → ((j : ℕ) → child_at (children n) (index + j) ≡ child_at cs j)
      → Lead plan (preorders p index cs)
  preorders-Lead plan n p index no_children at suffix = lead_nil
  preorders-Lead plan n p index (child c cs) at suffix =
      append-Lead plan _ _
        (preorder-Lead plan c (child_of p index (description c)) (
          child_of-leads plan n c p index (description c) at
            (ap (child_at (children n)) (omega arith) ∙ suffix 0)))
        (preorders-Lead plan n p (suc index) cs at
          (λ j. ap (child_at (children n)) (omega arith) ∙ suffix (suc j)))

-- An entry that was kept leads to its node, of which the predicate holds.
selected-leads :
    (plan : PlanNode) (predicate : PlanNode → Bool) (entries : List (PlanNode × NodePath))
    → Lead plan entries
    → (i : ℕ) (n : PlanNode) (p : NodePath) → get_elem? (selected predicate entries) i ≡ some (n, p)
    → (get_node_at_path plan p.path ≡ some n) × (predicate n ≡ true)
selected-leads plan predicate _ lead_nil i n p found = absurd (none-ne-some (n, p) found)
selected-leads plan predicate _ (lead_cons m q entries at a) i n p found =
    elim (Bool-cases (predicate m)) [
      | inl keep ↦
          kept i
            (subst (λ b. get_elem? (keep_if b (m, q) ++ selected predicate entries) i ≡ some (n, p))
              keep found)
            keep (selected-leads plan predicate entries a)
      | inr drop ↦ selected-leads plan predicate entries a i n p (
          subst (λ b. get_elem? (keep_if b (m, q) ++ selected predicate entries) i ≡ some (n, p))
            drop found)
    ]
  where
    kept :
        (k : ℕ)
        → get_elem? ((m, q) ∷ selected predicate entries) k ≡ some (n, p)
        → predicate m ≡ true
        → ((j : ℕ) (n' : PlanNode) (p' : NodePath)
            → get_elem? (selected predicate entries) j ≡ some (n', p')
            → (get_node_at_path plan p'.path ≡ some n') × (predicate n' ≡ true))
        → (get_node_at_path plan p.path ≡ some n) × (predicate n ≡ true)
    kept zero here keep below =
        subst (λ e. (get_node_at_path plan e.1.path ≡ some e.0) × (predicate e.0 ≡ true))
          (some-injective (m, q) (n, p) here) (at, keep)
    kept (suc k) there keep below = below k n p there

-- With as much fuel as the plan has nodes, `find_nodes` returns a list, and for every entry of it
-- `get_node_at_path` follows the entry's path from the root to the entry's node, and the predicate
-- holds of that node.
pub find_nodes-get_node_at_path :
    (predicate : PlanNode → Bool) (fuel : ℕ) (plan : PlanNode)
    → size plan ≤ fuel
    → (results : List (PlanNode × NodePath)) × (find_nodes predicate fuel plan ≡ some results)
      × ((i : ℕ) (n : PlanNode) (p : NodePath)
          → get_elem? results i ≡ some (n, p)
          → (get_node_at_path plan p.path ≡ some n) × (predicate n ≡ true))
unfolding get_node_at_path
find_nodes-get_node_at_path predicate fuel plan enough = (
  selected predicate (preorder plan root),
  find_nodes-preorder predicate fuel plan enough,
  selected-leads plan predicate (preorder plan root) (preorder-Lead plan plan root refl),
)
