-- ===== src/Traversal/Visits.antt =====
-- `depth_first` of crates/core/src/analysis/traversal.rs against the recursive walk.
use pg_plansight.Prelude.{
  ℕ, zero, suc, ◌+◌, ◌*◌, ◌≤◌, ◌≡◌, refl, ap, ◌∙◌, some, List, [], ◌∷◌, ◌++◌, arith,
}
use mathlib.Core.List.{reverse, reverse-cons}
use pg_plansight.Traversal.{
  PlanNode, node, Children, no_children, child, children, description, NodePath, root, child_of,
  enumerate, push_each, NodeVisitor, StackFrame, enter, visit, exit, frames, push_frames,
  take_frame, depth_loop, depth_first,
}
use pg_plansight.Traversal.Preorder.{size, sizes}

-- A node is entered, then its children are walked, then it is visited and exited.
abbrev mutual
  pub walk {ℓ} : {V : Type ℓ} → NodeVisitor V → V → PlanNode → NodePath → V
  walk visitor v (node details cs) p =
      let below = walks visitor (visitor.enter_node v (node details cs) p) p 0 cs in
      visitor.exit_node (visitor.visit_node below (node details cs) p) (node details cs) p

  pub walks {ℓ} : {V : Type ℓ} → NodeVisitor V → V → NodePath → ℕ → Children → V
  walks visitor v p index no_children = v
  walks visitor v p index (child c cs) =
      walks visitor (walk visitor v c (child_of p index (description c))) p (suc index) cs

module _ {ℓ} {V : Type ℓ} (visitor : NodeVisitor V) where
  -- What the frames of a stack still do.
  abbrev rest_of : V → List StackFrame → V
  rest_of v [] = v
  rest_of v (enter n p ∷ stack) =
      rest_of (walks visitor (visitor.enter_node v n p) p 0 (children n)) stack
  rest_of v (visit n p ∷ stack) = rest_of (visitor.visit_node v n p) stack
  rest_of v (exit n p ∷ stack) = rest_of (visitor.exit_node v n p) stack

-- The rounds that a stack takes.
abbrev rounds : List StackFrame → ℕ
rounds [] = 0
rounds (enter n p ∷ stack) = suc (3 * sizes (children n) + rounds stack)
rounds (visit n p ∷ stack) = suc (rounds stack)
rounds (exit n p ∷ stack) = suc (rounds stack)

-- The frames of a list of nodes, those of the first on top.
abbrev unrolled : List (PlanNode × NodePath) → List StackFrame → List StackFrame
unrolled [] stack = stack
unrolled ((n, p) ∷ entries) stack = enter n p ∷ visit n p ∷ exit n p ∷ unrolled entries stack

push_frames-append :
    (xs ys : List (PlanNode × NodePath)) (stack : List StackFrame)
    → push_frames (xs ++ ys) stack ≡ push_frames ys (push_frames xs stack)
unfolding push_frames
push_frames-append [] ys stack = refl
push_frames-append (x ∷ xs) ys stack = push_frames-append xs ys (push_each (frames x) stack)

push_frames-reverse :
    (xs : List (PlanNode × NodePath)) (stack : List StackFrame)
    → push_frames (reverse xs) stack ≡ unrolled xs stack
unfolding push_frames push_each
push_frames-reverse [] stack = refl
push_frames-reverse ((n, p) ∷ xs) stack =
    rw (reverse-cons (n, p) xs, push_frames-append (reverse xs) ((n, p) ∷ []) stack)
      (ap (λ s. enter n p ∷ visit n p ∷ exit n p ∷ s) (push_frames-reverse xs stack))

rest_of-enumerate {ℓ} :
    {V : Type ℓ} (visitor : NodeVisitor V) (v : V) (p : NodePath) (index : ℕ) (cs : Children)
    (stack : List StackFrame)
    → rest_of visitor v (unrolled (enumerate p index cs) stack)
      ≡ rest_of visitor (walks visitor v p index cs) stack
unfolding enumerate children description
rest_of-enumerate visitor v p index no_children stack = refl
rest_of-enumerate visitor v p index (child (node details ds) cs) stack =
    rest_of-enumerate visitor
      (walk visitor v (node details ds) (child_of p index details.description)) p (suc index) cs
      stack

rounds-enumerate :
    (p : NodePath) (index : ℕ) (cs : Children) (stack : List StackFrame)
    → rounds (unrolled (enumerate p index cs) stack) ≡ 3 * sizes cs + rounds stack
unfolding enumerate children
rounds-enumerate p index no_children stack = omega arith
rounds-enumerate p index (child (node details ds) cs) stack =
    omega (arith, rounds-enumerate p (suc index) cs stack)

-- A round does the first of what is to be done.
take_frame-rest_of {ℓ} :
    {V : Type ℓ} (visitor : NodeVisitor V) (v : V) (frame : StackFrame) (stack : List StackFrame)
    → (rest_of visitor (take_frame visitor v frame stack).0 (take_frame visitor v frame stack).1
        ≡ rest_of visitor v (frame ∷ stack))
      × (suc (rounds (take_frame visitor v frame stack).1) ≡ rounds (frame ∷ stack))
unfolding take_frame
take_frame-rest_of visitor v (enter n p) stack = (
  ap (rest_of visitor (visitor.enter_node v n p))
        (push_frames-reverse (enumerate p 0 (children n)) stack)
      ∙ rest_of-enumerate visitor (visitor.enter_node v n p) p 0 (children n) stack,
  ap (λ s. suc (rounds s)) (push_frames-reverse (enumerate p 0 (children n)) stack)
      ∙ ap suc (rounds-enumerate p 0 (children n) stack),
)
take_frame-rest_of visitor v (visit n p) stack = (refl, refl)
take_frame-rest_of visitor v (exit n p) stack = (refl, refl)

depth_loop_lem {ℓ} :
    {V : Type ℓ} (visitor : NodeVisitor V) (fuel : ℕ) (v : V) (stack : List StackFrame)
    → rounds stack ≤ fuel
    → depth_loop visitor fuel v stack ≡ some (rest_of visitor v stack)
unfolding depth_loop
depth_loop_lem visitor fuel v [] enough = refl
depth_loop_lem visitor zero v (frame ∷ stack) enough =
    absurd (omega (arith, (take_frame-rest_of visitor v frame stack).1))
depth_loop_lem visitor (suc fuel) v (frame ∷ stack) enough =
    let (same, fewer) = take_frame-rest_of visitor v frame stack in
    depth_loop_lem visitor fuel (take_frame visitor v frame stack).0
      (take_frame visitor v frame stack).1 (omega (arith, fewer))
    ∙ ap some same

-- With three rounds of fuel for each node of the plan, `depth_first` brings the visitor to the
-- state to which the recursive walk brings it: every node is entered before its children are, and
-- visited and exited, in that order, after the last of them was exited.
pub depth_first-walk {ℓ} :
    {V : Type ℓ} (visitor : NodeVisitor V) (fuel : ℕ) (plan : PlanNode) (v : V)
    → 3 * size plan ≤ fuel
    → depth_first visitor fuel plan v ≡ some (walk visitor v plan root)
unfolding depth_first push_each children
depth_first-walk visitor fuel (node details cs) v enough =
    depth_loop_lem visitor fuel v
      (enter (node details cs) root
        ∷ visit (node details cs) root
        ∷ exit (node details cs) root
        ∷ [])
      (omega arith)
