-- ===== src/Traversal.antt =====
-- crates/core/src/analysis/traversal.rs, with the plan nodes of crates/core/src/plan_parser.rs and
-- the node paths of crates/core/src/analysis/mod.rs: the iterative walks over a plan tree.
pub mod Preorder
pub mod Visits
pub mod Levels
pub mod Paths
pub mod Relations
pub mod Ancestry
mod Tests
use pg_plansight.Prelude.{
  ℕ, zero, suc, ◌+◌, Bool, true, false, Option, none, some, List, [], ◌∷◌, ◌++◌, ltb, ◌==◌,
  if◌then◌else◌, and_then,
}
use mathlib.Core.List.{reverse}

-- What a node is besides its children, of which the walks only ask the description.
pub record Details : Type 0 where
  pub description : List ℕ
  pub original_text : List ℕ

mutual
  pub data PlanNode : Type 0 where
    node : Details → Children → PlanNode

  pub data Children : Type 0 where
    no_children : Children
    child : PlanNode → Children → Children

unfoldable pub children : PlanNode → Children
children (node details cs) = cs

unfoldable pub description : PlanNode → List ℕ
description (node details cs) = details.description

pub record NodePath : Type 0 where
  pub path : List ℕ
  pub text : List ℕ

-- `NodePath::root`: "Root node".
abbrev pub root : NodePath
root = record { path = []; text = 82 ∷ 111 ∷ 111 ∷ 116 ∷ 32 ∷ 110 ∷ 111 ∷ 100 ∷ 101 ∷ [] }

-- `NodePath::child_of`: the texts are joined by " -> ".
abbrev pub child_of : NodePath → ℕ → List ℕ → NodePath
child_of p index description = record {
  path = p.path ++ (index ∷ []);
  text = p.text ++ (32 ∷ 45 ∷ 62 ∷ 32 ∷ description);
}

-- The children with their paths, `children.iter().enumerate()` from an index on.
unfoldable pub enumerate : NodePath → ℕ → Children → List (PlanNode × NodePath)
enumerate p index no_children = []
enumerate p index (child c cs) = (c, child_of p index (description c)) ∷ enumerate p (suc index) cs

-- Entries pushed one by one on a stack, whose top is the head of the list.
unfoldable pub push_each {ℓ} : {A : Type ℓ} → List A → List A → List A
push_each [] stack = stack
push_each (x ∷ xs) stack = push_each xs (x ∷ stack)

-- A visitor by what its three methods do to its state.
pub record NodeVisitor {ℓ} (V : Type ℓ) : Type ℓ where
  pub enter_node : V → PlanNode → NodePath → V
  pub visit_node : V → PlanNode → NodePath → V
  pub exit_node : V → PlanNode → NodePath → V

pub data StackFrame : Type 0 where
  enter : PlanNode → NodePath → StackFrame
  visit : PlanNode → NodePath → StackFrame
  exit : PlanNode → NodePath → StackFrame

-- `collect_from_node`, with the collector's state.
abbrev pub NodeCollector {ℓ} : Type 0 → Type ℓ → Type ℓ
NodeCollector T C = C → PlanNode → NodePath → Option T × C

-- The three frames of a node, in the order in which they are pushed.
abbrev pub frames : PlanNode × NodePath → List StackFrame
frames (n, p) = exit n p ∷ visit n p ∷ enter n p ∷ []

-- The frames of the children, last child first.
unfoldable pub push_frames : List (PlanNode × NodePath) → List StackFrame → List StackFrame
push_frames [] stack = stack
push_frames (entry ∷ entries) stack = push_frames entries (push_each (frames entry) stack)

-- One round of the loop of `depth_first`: the visitor and the stack after a frame was taken off.
unfoldable pub take_frame {ℓ} :
    {V : Type ℓ} → NodeVisitor V → V → StackFrame → List StackFrame → V × List StackFrame
take_frame visitor v (enter n p) stack =
    (visitor.enter_node v n p, push_frames (reverse (enumerate p 0 (children n))) stack)
take_frame visitor v (visit n p) stack = (visitor.visit_node v n p, stack)
take_frame visitor v (exit n p) stack = (visitor.exit_node v n p, stack)

-- The loops run on fuel, and are none when it is used up.
unfoldable pub depth_loop {ℓ} : {V : Type ℓ} → NodeVisitor V → ℕ → V → List StackFrame → Option V
depth_loop visitor fuel v [] = some v
depth_loop visitor zero v (frame ∷ stack) = none
depth_loop visitor (suc fuel) v (frame ∷ stack) =
    let (v', stack') = take_frame visitor v frame stack in depth_loop visitor fuel v' stack'

unfoldable pub depth_first {ℓ} : {V : Type ℓ} → NodeVisitor V → ℕ → PlanNode → V → Option V
depth_first visitor fuel plan v = depth_loop visitor fuel v (push_each (frames (plan, root)) [])

abbrev pub or_nothing : {T : Type 0} → Option T → List T
or_nothing none = []
or_nothing (some result) = result ∷ []

unfoldable pub collect_loop {ℓ} :
    {T : Type 0} {C : Type ℓ}
    → NodeCollector T C
    → ℕ
    → C
    → List T
    → List (PlanNode × NodePath)
    → Option (List T × C)
collect_loop collector fuel c results [] = some (results, c)
collect_loop collector zero c results (entry ∷ stack) = none
collect_loop collector (suc fuel) c results ((n, p) ∷ stack) =
    let (result, c') = collector c n p in
    collect_loop collector fuel c' (results ++ or_nothing result)
      (push_each (reverse (enumerate p 0 (children n))) stack)

unfoldable pub collect {ℓ} :
    {T : Type 0} {C : Type ℓ} → NodeCollector T C → ℕ → PlanNode → C → Option (List T × C)
collect collector fuel plan c = collect_loop collector fuel c [] ((plan, root) ∷ [])

abbrev pub keep_if : Bool → PlanNode × NodePath → List (PlanNode × NodePath)
keep_if b entry = if b then entry ∷ [] else []

unfoldable pub find_loop :
    (PlanNode → Bool)
    → ℕ
    → List (PlanNode × NodePath)
    → List (PlanNode × NodePath)
    → Option (List (PlanNode × NodePath))
find_loop predicate fuel results [] = some results
find_loop predicate zero results (entry ∷ stack) = none
find_loop predicate (suc fuel) results ((n, p) ∷ stack) =
    find_loop predicate fuel (results ++ keep_if (predicate n) (n, p))
      (push_each (reverse (enumerate p 0 (children n))) stack)

unfoldable pub find_nodes : (PlanNode → Bool) → ℕ → PlanNode → Option (List (PlanNode × NodePath))
find_nodes predicate fuel plan = find_loop predicate fuel [] ((plan, root) ∷ [])

abbrev pub is_leaf : PlanNode → Bool
is_leaf (node details no_children) = true
is_leaf (node details (child c cs)) = false

abbrev pub get_leaf_nodes : ℕ → PlanNode → Option (List (PlanNode × NodePath))
get_leaf_nodes = find_nodes is_leaf

-- The children one level further down.
unfoldable pub deepen : ℕ → List (PlanNode × NodePath) → List (PlanNode × NodePath × ℕ)
deepen depth [] = []
deepen depth ((n, p) ∷ entries) = (n, p, depth) ∷ deepen depth entries

-- One round of the loop of `get_nodes_at_depth`: the results and the stack.
unfoldable pub depth_step :
    ℕ
    → PlanNode
    → NodePath
    → ℕ
    → List (PlanNode × NodePath)
    → List (PlanNode × NodePath × ℕ)
    → List (PlanNode × NodePath) × List (PlanNode × NodePath × ℕ)
depth_step target n p depth results stack =
    if depth == target
    then (results ++ ((n, p) ∷ []), stack)
    else if ltb depth target
    then (results, push_each (reverse (deepen (depth + 1) (enumerate p 0 (children n)))) stack)
    else (results, stack)

unfoldable pub at_depth_loop :
    ℕ
    → ℕ
    → List (PlanNode × NodePath)
    → List (PlanNode × NodePath × ℕ)
    → Option (List (PlanNode × NodePath))
at_depth_loop target fuel results [] = some results
at_depth_loop target zero results (entry ∷ stack) = none
at_depth_loop target (suc fuel) results ((n, p, depth) ∷ stack) =
    let (results', stack') = depth_step target n p depth results stack in
    at_depth_loop target fuel results' stack'

unfoldable pub get_nodes_at_depth : ℕ → PlanNode → ℕ → Option (List (PlanNode × NodePath))
get_nodes_at_depth fuel plan target = at_depth_loop target fuel [] ((plan, root, 0) ∷ [])

-- `current_node.children[index]`, none out of range.
unfoldable pub child_at : Children → ℕ → Option PlanNode
child_at no_children index = none
child_at (child c cs) zero = some c
child_at (child c cs) (suc index) = child_at cs index

unfoldable pub get_node_at_path : PlanNode → List ℕ → Option PlanNode
get_node_at_path n [] = some n
get_node_at_path n (index ∷ path) =
    and_then (child_at (children n) index) (λ c. get_node_at_path c path)
