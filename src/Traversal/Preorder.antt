-- ===== src/Traversal/Preorder.antt =====
-- The collecting walks of crates/core/src/analysis/traversal.rs against the recursive preorder.
use pg_plansight.Prelude.{
  ℕ, zero, suc, ◌+◌, ◌≤◌, ◌≡◌, refl, sym, ap, ◌∙◌, Bool, some, List, [], ◌∷◌, ◌++◌, append-nil,
  append_assoc, arith,
}
use mathlib.Core.List.{reverse, reverse-cons}
use pg_plansight.Traversal.{
  PlanNode, node, Children, no_children, child, children, description, NodePath, root, child_of,
  enumerate, push_each, NodeCollector, or_nothing, collect_loop, collect, keep_if, find_loop,
  find_nodes,
}

-- The number of nodes.
abbrev mutual
  pub size : PlanNode → ℕ
  size (node details cs) = suc (sizes cs)

  pub sizes : Children → ℕ
  sizes no_children = 0
  sizes (child c cs) = size c + sizes cs

-- Every node with its path, a parent before its children, the children in order.
abbrev mutual
  pub preorder : PlanNode → NodePath → List (PlanNode × NodePath)
  preorder (node details cs) p = (node details cs, p) ∷ preorders p 0 cs

  pub preorders : NodePath → ℕ → Children → List (PlanNode × NodePath)
  preorders p index no_children = []
  preorders p index (child c cs) =
      preorder c (child_of p index (description c)) ++ preorders p (suc index) cs

-- The same of all the entries of a stack.
abbrev pub stacked : List (PlanNode × NodePath) → List (PlanNode × NodePath)
stacked [] = []
stacked (entry ∷ stack) = preorder entry.0 entry.1 ++ stacked stack

abbrev pub stack_size : List (PlanNode × NodePath) → ℕ
stack_size [] = 0
stack_size (entry ∷ stack) = size entry.0 + stack_size stack

push_each-append :
    {A : Type 0} (xs ys stack : List A)
    → push_each (xs ++ ys) stack ≡ push_each ys (push_each xs stack)
unfolding push_each
push_each-append [] ys stack = refl
push_each-append (x ∷ xs) ys stack = push_each-append xs ys (x ∷ stack)

-- Pushing from the last to the first leaves the first on top.
pub push_each-reverse :
    {A : Type 0} (xs stack : List A) → push_each (reverse xs) stack ≡ xs ++ stack
unfolding push_each
push_each-reverse [] stack = refl
push_each-reverse (x ∷ xs) stack =
    rw (reverse-cons x xs, push_each-append (reverse xs) (x ∷ []) stack)
      (ap (◌∷◌ x) (push_each-reverse xs stack))

stacked-enumerate :
    (p : NodePath) (index : ℕ) (cs : Children) (stack : List (PlanNode × NodePath))
    → stacked (enumerate p index cs ++ stack) ≡ preorders p index cs ++ stacked stack
unfolding enumerate
stacked-enumerate p index no_children stack = refl
stacked-enumerate p index (child c cs) stack =
    ap (λ xs. preorder c (child_of p index (description c)) ++ xs)
      (stacked-enumerate p (suc index) cs stack)
    ∙ sym (
        append_assoc (preorder c (child_of p index (description c))) (preorders p (suc index) cs)
          (stacked stack))

stack_size-enumerate :
    (p : NodePath) (index : ℕ) (cs : Children) (stack : List (PlanNode × NodePath))
    → stack_size (enumerate p index cs ++ stack) ≡ sizes cs + stack_size stack
unfolding enumerate
stack_size-enumerate p index no_children stack = omega arith
stack_size-enumerate p index (child c cs) stack =
    omega (arith, stack_size-enumerate p (suc index) cs stack)

-- A stack after the entry on its top was replaced by its children.
abbrev pub next : PlanNode → NodePath → List (PlanNode × NodePath) → List (PlanNode × NodePath)
next n p stack = push_each (reverse (enumerate p 0 (children n))) stack

pub stacked-next :
    (n : PlanNode) (p : NodePath) (stack : List (PlanNode × NodePath))
    → stacked ((n, p) ∷ stack) ≡ (n, p) ∷ stacked (next n p stack)
unfolding children
stacked-next (node details cs) p stack =
    ap (◌∷◌ (node details cs, p)) (
      sym
        (ap stacked (push_each-reverse (enumerate p 0 cs) stack) ∙ stacked-enumerate p 0 cs stack))

pub stack_size-next :
    (n : PlanNode) (p : NodePath) (stack : List (PlanNode × NodePath))
    → stack_size ((n, p) ∷ stack) ≡ suc (stack_size (next n p stack))
unfolding children
stack_size-next (node details cs) p stack =
    rw (push_each-reverse (enumerate p 0 cs) stack, stack_size-enumerate p 0 cs stack) (omega arith)

-- The nodes that a predicate holds of.
abbrev pub selected : (PlanNode → Bool) → List (PlanNode × NodePath) → List (PlanNode × NodePath)
selected predicate [] = []
selected predicate (entry ∷ entries) =
    keep_if (predicate entry.0) entry ++ selected predicate entries

find_loop_lem :
    (predicate : PlanNode → Bool) (fuel : ℕ) (results stack : List (PlanNode × NodePath))
    → stack_size stack ≤ fuel
    → find_loop predicate fuel results stack ≡ some (results ++ selected predicate (stacked stack))
unfolding find_loop
find_loop_lem predicate fuel results [] enough = ap some (sym (append-nil results))
find_loop_lem predicate zero results ((n, p) ∷ stack) enough =
    absurd (omega (arith, stack_size-next n p stack))
find_loop_lem predicate (suc fuel) results ((n, p) ∷ stack) enough =
    find_loop_lem predicate fuel (results ++ keep_if (predicate n) (n, p)) (next n p stack)
      (omega (arith, stack_size-next n p stack))
    ∙ ap some (
        append_assoc results (keep_if (predicate n) (n, p)) _
        ∙ ap (λ xs. results ++ selected predicate xs) (sym (stacked-next n p stack)))

-- With as much fuel as the plan has nodes, `find_nodes` returns the nodes that the predicate holds
-- of, each with its path, in preorder.
pub find_nodes-preorder :
    (predicate : PlanNode → Bool) (fuel : ℕ) (plan : PlanNode)
    → size plan ≤ fuel
    → find_nodes predicate fuel plan ≡ some (selected predicate (preorder plan root))
unfolding find_nodes
find_nodes-preorder predicate fuel plan enough =
    find_loop_lem predicate fuel [] ((plan, root) ∷ []) (omega arith)
    ∙ ap (λ xs. some (selected predicate xs)) (append-nil (preorder plan root))

-- A collector asked about one node after the other.
abbrev pub gather {ℓ} :
    {T : Type 0} {C : Type ℓ} → NodeCollector T C → C → List (PlanNode × NodePath) → List T × C
gather collector c [] = ([], c)
gather collector c (entry ∷ entries) =
    let (result, c') = collector c entry.0 entry.1 in
    let (results, c'') = gather collector c' entries in (or_nothing result ++ results, c'')

collect_loop_lem {ℓ} :
    {T : Type 0} {C : Type ℓ} (collector : NodeCollector T C) (fuel : ℕ) (c : C) (results : List T)
    (stack : List (PlanNode × NodePath))
    → stack_size stack ≤ fuel
    → collect_loop collector fuel c results stack
      ≡ some (
        results ++ (gather collector c (stacked stack)).0,
        (gather collector c (stacked stack)).1,
      )
unfolding collect_loop
collect_loop_lem collector fuel c results [] enough =
    ap (λ r. some (r, c)) (sym (append-nil results))
collect_loop_lem collector zero c results ((n, p) ∷ stack) enough =
    absurd (omega (arith, stack_size-next n p stack))
collect_loop_lem collector (suc fuel) c results ((n, p) ∷ stack) enough =
    collect_loop_lem collector fuel (collector c n p).1 (results ++ or_nothing (collector c n p).0)
      (next n p stack) (omega (arith, stack_size-next n p stack))
    ∙ ap (λ r. some (r, (gather collector (collector c n p).1 (stacked (next n p stack))).1))
        (append_assoc results (or_nothing (collector c n p).0) _)
    ∙ ap (λ xs. some (results ++ (gather collector c xs).0, (gather collector c xs).1))
        (sym (stacked-next n p stack))

-- With as much fuel as the plan has nodes, `collect` asks the collector about every node in
-- preorder, passing its state on, and returns what it gave in that order.
pub collect-preorder {ℓ} :
    {T : Type 0} {C : Type ℓ} (collector : NodeCollector T C) (fuel : ℕ) (plan : PlanNode) (c : C)
    → size plan ≤ fuel
    → collect collector fuel plan c ≡ some (gather collector c (preorder plan root))
unfolding collect
collect-preorder collector fuel plan c enough =
    collect_loop_lem collector fuel c [] ((plan, root) ∷ []) (omega arith)
    ∙ ap (λ xs. some (gather collector c xs)) (append-nil (preorder plan root))
