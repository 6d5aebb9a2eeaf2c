-- ===== src/Traversal/Levels.antt =====
-- `get_nodes_at_depth` of crates/core/src/analysis/traversal.rs against the recursive level.
use pg_plansight.Prelude.{
  ℕ, zero, suc, ◌+◌, ◌-◌, ◌≤◌, ◌<◌, ◌≡◌, refl, sym, ap, ap₂, subst, ◌∙◌, inl, inr, true, false,
  some, List, [], ◌∷◌, ◌++◌, append-nil, append_assoc, arith, ltb, ◌==◌, if◌then◌else◌, ltb→lt,
  le→ltb, ==→≡, Bool-cases, if_true, if_false,
}
use pg_plansight.Traversal.{
  PlanNode, node, Children, no_children, child, children, description, NodePath, root, child_of,
  enumerate, deepen, depth_step, at_depth_loop, get_nodes_at_depth,
}
use pg_plansight.Traversal.Preorder.{size, sizes, push_each-reverse}

-- The nodes that lie `k` levels below a node, from left to right.
abbrev mutual
  pub level : ℕ → PlanNode → NodePath → List (PlanNode × NodePath)
  level zero n p = (n, p) ∷ []
  level (suc k) (node details cs) p = levels k p 0 cs

  pub levels : ℕ → NodePath → ℕ → Children → List (PlanNode × NodePath)
  levels k p index no_children = []
  levels k p index (child c cs) =
      level k c (child_of p index (description c)) ++ levels k p (suc index) cs

-- What an entry of the stack contributes, and what the stack does.
abbrev below : ℕ → PlanNode → NodePath → ℕ → List (PlanNode × NodePath)
below target n p depth = if ltb target depth then [] else level (target - depth) n p

abbrev all_below : ℕ → List (PlanNode × NodePath × ℕ) → List (PlanNode × NodePath)
all_below target [] = []
all_below target ((n, p, depth) ∷ stack) = below target n p depth ++ all_below target stack

abbrev total : List (PlanNode × NodePath × ℕ) → ℕ
total [] = 0
total ((n, p, depth) ∷ stack) = size n + total stack

all_below-deepen :
    (target depth : ℕ) (p : NodePath) (index : ℕ) (cs : Children)
    (stack : List (PlanNode × NodePath × ℕ))
    → ltb target depth ≡ false
    → all_below target (deepen depth (enumerate p index cs) ++ stack)
      ≡ levels (target - depth) p index cs ++ all_below target stack
unfolding enumerate deepen
all_below-deepen target depth p index no_children stack above = refl
all_below-deepen target depth p index (child c cs) stack above =
    ap₂ ◌++◌ (if_false _ _ above) (all_below-deepen target depth p (suc index) cs stack above)
    ∙ sym (
        append_assoc (level (target - depth) c (child_of p index (description c)))
          (levels (target - depth) p (suc index) cs) (all_below target stack))

total-deepen :
    (depth : ℕ) (p : NodePath) (index : ℕ) (cs : Children) (stack : List (PlanNode × NodePath × ℕ))
    → total (deepen depth (enumerate p index cs) ++ stack) ≡ sizes cs + total stack
unfolding enumerate deepen
total-deepen depth p index no_children stack = omega arith
total-deepen depth p index (child c cs) stack =
    omega (arith, total-deepen depth p (suc index) cs stack)

-- A round moves what its entry contributes to the results or to the stack, and shrinks the stack.
record Round (target : ℕ) (results : List (PlanNode × NodePath))
    (stack : List (PlanNode × NodePath × ℕ))
    (after : List (PlanNode × NodePath) × List (PlanNode × NodePath × ℕ)) : Type 0 where
  moved : after.0 ++ all_below target after.1 ≡ results ++ all_below target stack
  shrunk : total after.1 < total stack

further : (target depth : ℕ) → depth < target → target - depth ≡ suc (target - (depth + 1))
further target depth h = omega arith

below_here :
    (target : ℕ) (n : PlanNode) (p : NodePath) (depth : ℕ)
    → (depth == target) ≡ true
    → below target n p depth ≡ (n, p) ∷ []
below_here target n p depth here =
    if_false _ _ (le→ltb target depth (omega (arith, ==→≡ depth target here)))
    ∙ ap (λ k. level k n p) zero_left
  where
    zero_left : target - depth ≡ 0
    zero_left = omega (arith, ==→≡ depth target here)

below_deeper :
    (target : ℕ) (n : PlanNode) (p : NodePath) (depth : ℕ)
    → ltb depth target ≡ true
    → below target n p depth ≡ levels (target - (depth + 1)) p 0 (children n)
unfolding children
below_deeper target (node details cs) p depth deeper =
    if_false _ _ (le→ltb target depth (omega (arith, ltb→lt depth target deeper)))
    ∙ ap (λ k. level k (node details cs) p) (further target depth (ltb→lt depth target deeper))

below_past :
    (target : ℕ) (n : PlanNode) (p : NodePath) (depth : ℕ)
    → (depth == target) ≡ false
    → ltb depth target ≡ false
    → below target n p depth ≡ []
below_past target n p depth elsewhere past = if_true {b = ltb target depth} _ _ (ground arith)

depth_step-Round :
    (target : ℕ) (n : PlanNode) (p : NodePath) (depth : ℕ) (results : List (PlanNode × NodePath))
    (stack : List (PlanNode × NodePath × ℕ))
    → Round target results ((n, p, depth) ∷ stack) (depth_step target n p depth results stack)
unfolding depth_step children
depth_step-Round target (node details cs) p depth results stack =
    elim (Bool-cases (depth == target)) [
      | inl here ↦ subst (Round target results _) (sym (if_true _ _ here)) (record {
        moved =
            append_assoc results ((node details cs, p) ∷ []) _
            ∙ ap (λ xs. results ++ (xs ++ all_below target stack))
                (sym (below_here target (node details cs) p depth here));
        shrunk = omega arith;
      })
      | inr elsewhere ↦ elim (Bool-cases (ltb depth target)) [
        | inl deeper ↦
            subst (Round target results _) (sym (if_false _ _ elsewhere ∙ if_true _ _ deeper))
              (record {
                moved =
                    ap (λ xs. results ++ xs)
                      (ap (all_below target)
                          (push_each-reverse (deepen (depth + 1) (enumerate p 0 cs)) stack)
                        ∙ all_below-deepen target (depth + 1) p 0 cs stack
                            (le→ltb _ _ (omega (arith, ltb→lt depth target deeper)))
                        ∙ sym (
                            ap (λ xs. xs ++ all_below target stack)
                              (below_deeper target (node details cs) p depth deeper)));
                shrunk =
                    rw
                      (
                        push_each-reverse (deepen (depth + 1) (enumerate p 0 cs)) stack,
                        total-deepen (depth + 1) p 0 cs stack,
                      )
                      (omega arith);
              })
        | inr past ↦
            subst (Round target results _) (sym (if_false _ _ elsewhere ∙ if_false _ _ past))
              (record {
                moved =
                    ap (λ xs. results ++ (xs ++ all_below target stack))
                      (sym (below_past target (node details cs) p depth elsewhere past));
                shrunk = omega arith;
              })
      ]
    ]

at_depth_loop_lem :
    (target fuel : ℕ) (results : List (PlanNode × NodePath))
    (stack : List (PlanNode × NodePath × ℕ))
    → total stack ≤ fuel
    → at_depth_loop target fuel results stack ≡ some (results ++ all_below target stack)
unfolding at_depth_loop
at_depth_loop_lem target fuel results [] enough = ap some (sym (append-nil results))
at_depth_loop_lem target zero results ((n, p, depth) ∷ stack) enough =
    absurd (omega (arith, (depth_step-Round target n p depth results stack).shrunk))
at_depth_loop_lem target (suc fuel) results ((n, p, depth) ∷ stack) enough =
    let round = depth_step-Round target n p depth results stack in
    at_depth_loop_lem target fuel (depth_step target n p depth results stack).0
      (depth_step target n p depth results stack).1 (omega (arith, round.shrunk))
    ∙ ap some round.moved

-- With as much fuel as the plan has nodes, `get_nodes_at_depth` returns the nodes that many levels
-- below the root, each with its path, from left to right.
pub get_nodes_at_depth-level :
    (fuel : ℕ) (plan : PlanNode) (target : ℕ)
    → size plan ≤ fuel
    → get_nodes_at_depth fuel plan target ≡ some (level target plan root)
unfolding get_nodes_at_depth
get_nodes_at_depth-level fuel plan target enough =
    at_depth_loop_lem target fuel [] ((plan, root, 0) ∷ []) (omega arith)
    ∙ ap some (
        append-nil (below target plan root 0)
        ∙ if_false _ _ (le→ltb target 0 (omega arith))
        ∙ ap (λ k. level k plan root) (no_less target))
  where
    no_less : (k : ℕ) → k - 0 ≡ k
    no_less k = omega arith
