-- ===== src/Traversal/Ancestry.antt =====
-- What the relations of crates/core/src/analysis/traversal.rs say of paths and of the tree.
use pg_plansight.Prelude.{
  ℕ, zero, suc, ◌-◌, ◌≤◌, ◌<◌, ◌≡◌, refl, sym, ap, ap₂, ◌∙◌, ◌↔◌, inl, inr, true, false, some, List,
  [], ◌∷◌, ◌++◌, map, append-nil, append_assoc, arith, leb, if◌then◌else◌, lt→leb, leb→lt, and_then,
  Bool-cases, if_true, if_false, Option-cases, length, get_elem?, take, drop, length-append,
  length-take, length-drop, take-append_length, take_all, bytes_eq, bytes_eq_sound, bytes_eq_refl,
}
use mathlib.Core.Option.{none-ne-some}
use mathlib.Core.Bool.{true≢false}
use mathlib.Core.List.{map-append}
use pg_plansight.Traversal.{
  PlanNode, node, Children, no_children, child, description, NodePath, child_of, get_node_at_path,
}
use pg_plansight.Traversal.Preorder.{preorder, preorders}
use pg_plansight.Traversal.Paths.{get_node_at_path-append}
use pg_plansight.Traversal.Relations.{
  pop, or_skip, ancestors_loop, get_ancestors, get_descendants, descendants_of, is_ancestor,
}

take-drop : {A : Type 0} (n : ℕ) (xs : List A) → take n xs ++ drop n xs ≡ xs
take-drop zero xs = refl
take-drop (suc n) [] = refl
take-drop (suc n) (x ∷ xs) = ap (◌∷◌ x) (take-drop n xs)

nonempty : {A : Type 0} (xs : List A) → 0 < length xs → (x : A) × (ys : List A) × (xs ≡ x ∷ ys)
nonempty [] h = absurd (omega arith)
nonempty (x ∷ ys) h = (x, ys, refl)

-- `is_ancestor` holds exactly when the second path goes on from the first by one index or more.
pub is_ancestor_lem :
    (a d : NodePath)
    → (is_ancestor a d ≡ true) ↔ ((x : ℕ) × (ys : List ℕ) × (d.path ≡ a.path ++ (x ∷ ys)))
unfolding is_ancestor
is_ancestor_lem a d = (forth, back)
  where
    forth :
        (if leb (length d.path) (length a.path)
            then false
            else bytes_eq (take (length a.path) d.path) a.path)
          ≡ true
        → (x : ℕ) × (ys : List ℕ) × (d.path ≡ a.path ++ (x ∷ ys))
    forth e = elim (Bool-cases (leb (length d.path) (length a.path))) [
      | inl long ↦ absurd (true≢false (sym e ∙ if_true _ _ long))
      | inr short ↦
          let same = bytes_eq_sound _ _ (sym (if_false _ _ short) ∙ e) in
          let (x, ys, more) =
            nonempty (drop (length a.path) d.path)
              (omega (arith, leb→lt _ _ short, length-drop (length a.path) d.path)) in
          (x, ys, sym (take-drop (length a.path) d.path) ∙ ap₂ ◌++◌ same more)
    ]

    back :
        (x : ℕ) × (ys : List ℕ) × (d.path ≡ a.path ++ (x ∷ ys))
        → (if leb (length d.path) (length a.path)
            then false
            else bytes_eq (take (length a.path) d.path) a.path)
          ≡ true
    back (x, ys, e) =
        if_false _ _ (
          lt→leb (length a.path) (length d.path)
            (omega (arith, ap length e, length-append a.path (x ∷ ys))))
        ∙ ap (λ path. bytes_eq path a.path)
            (ap (take (length a.path)) e ∙ take-append_length a.path (x ∷ ys))
        ∙ bytes_eq_refl a.path

mutual
  nodes_below :
      (n : PlanNode) (p : NodePath) → map (λ entry. entry.0) (preorder n p) ≡ n ∷ get_descendants n
  nodes_below (node details cs) p = ap (◌∷◌ (node details cs)) (nodes_of p 0 cs)

  nodes_of :
      (p : NodePath) (i : ℕ) (cs : Children)
      → map (λ entry. entry.0) (preorders p i cs) ≡ descendants_of cs
  nodes_of p i no_children = refl
  nodes_of p i (child c cs) =
      map-append (λ entry. entry.0) (preorder c (child_of p i (description c)))
        (preorders p (suc i) cs)
      ∙ ap₂ ◌++◌ (nodes_below c (child_of p i (description c))) (nodes_of p (suc i) cs)

-- For any path, the descendants of a node are, in order, the nodes that the preorder walk from it
-- reports after the node.
pub get_descendants-preorder :
    (n : PlanNode) (p : NodePath) → map (λ entry. entry.0) (preorder n p) ≡ n ∷ get_descendants n
get_descendants-preorder = nodes_below

less : (n : ℕ) → suc n - 1 ≡ n
less n = omega arith

pop-take : (path : List ℕ) → pop path ≡ take (length path - 1) path
unfolding pop
pop-take [] = refl
pop-take (i ∷ []) = refl
pop-take (i ∷ j ∷ path) =
    ap (◌∷◌ i) (pop-take (j ∷ path) ∙ ap (λ k. take k (j ∷ path)) (less (length path)))
    ∙ ap (λ k. take k (i ∷ j ∷ path)) (sym (less (suc (length path))))

take-take : {A : Type 0} (m : ℕ) (xs : List A) → take m (take (suc m) xs) ≡ take m xs
take-take zero xs = refl
take-take (suc m) [] = refl
take-take (suc m) (x ∷ xs) = ap (◌∷◌ x) (take-take m xs)

-- Popping a prefix makes it shorter by one.
pop-prefix : (m : ℕ) (path : List ℕ) → suc m ≤ length path → pop (take (suc m) path) ≡ take m path
pop-prefix m path within =
    pop-take (take (suc m) path)
    ∙ ap (λ k. take k (take (suc m) path)) (omega (arith, length-take (suc m) path))
    ∙ take-take m path

loop_step :
    (plan : PlanNode) (fuel : ℕ) (acc : List PlanNode) (path : List ℕ)
    → 0 < length path
    → ancestors_loop plan (suc fuel) acc path
      ≡ ancestors_loop plan fuel (acc ++ or_skip (get_node_at_path plan (pop path))) (pop path)
unfolding ancestors_loop
loop_step plan fuel acc [] h = absurd (omega arith)
loop_step plan fuel acc (i ∷ path) h = refl

-- The nodes at the prefixes shorter than `m`, the longest first.
abbrev above : PlanNode → ℕ → List ℕ → List PlanNode
above plan zero path = []
above plan (suc m) path = or_skip (get_node_at_path plan (take m path)) ++ above plan m path

ancestors_loop-above :
    (plan : PlanNode) (fuel m : ℕ) (acc : List PlanNode) (path : List ℕ)
    → m ≤ length path
    → m ≤ fuel
    → ancestors_loop plan fuel acc (take m path) ≡ some (acc ++ above plan m path)
unfolding ancestors_loop
ancestors_loop-above plan fuel zero acc path within enough = ap some (sym (append-nil acc))
ancestors_loop-above plan zero (suc m) acc path within enough = absurd (omega arith)
ancestors_loop-above plan (suc fuel) (suc m) acc path within enough =
    loop_step plan fuel acc (take (suc m) path) (omega (arith, length-take (suc m) path))
    ∙ ap (λ q. ancestors_loop plan fuel (acc ++ or_skip (get_node_at_path plan q)) q)
        (pop-prefix m path within)
    ∙ ancestors_loop-above plan fuel m (acc ++ or_skip (get_node_at_path plan (take m path))) path
        (omega arith) (omega arith)
    ∙ ap some (append_assoc acc (or_skip (get_node_at_path plan (take m path))) (above plan m path))

-- Every prefix of a path that leads to a node leads to a node.
prefix_leads :
    (plan n : PlanNode) (m : ℕ) (path : List ℕ)
    → get_node_at_path plan path ≡ some n
    → (a : PlanNode) × (get_node_at_path plan (take m path) ≡ some a)
prefix_leads plan n m path at = elim (Option-cases (get_node_at_path plan (take m path))) [
  | inl lost ↦ absurd (
      none-ne-some n (
        sym (ap (λ o. and_then o (λ a. get_node_at_path a (drop m path))) lost)
        ∙ sym (get_node_at_path-append plan (take m path) (drop m path))
        ∙ ap (get_node_at_path plan) (take-drop m path)
        ∙ at))
  | inr found ↦ found
]

above-get_elem? :
    (plan n : PlanNode) (m : ℕ) (path : List ℕ) (k : ℕ)
    → get_node_at_path plan path ≡ some n
    → k < m
    → get_elem? (above plan m path) k ≡ get_node_at_path plan (take (m - suc k) path)
above-get_elem? plan n zero path k at within = absurd (omega arith)
above-get_elem? plan n (suc m) path zero at within =
    let (a, found) = prefix_leads plan n m path at in
    ap (λ o. get_elem? (or_skip o ++ above plan m path) 0) found
    ∙ sym found
    ∙ ap (λ j. get_node_at_path plan (take j path)) (sym (less m))
above-get_elem? plan n (suc m) path (suc k) at within =
    let (a, found) = prefix_leads plan n m path at in
    ap (λ o. get_elem? (or_skip o ++ above plan m path) (suc k)) found
    ∙ above-get_elem? plan n m path k at (omega arith)
    ∙ ap (λ j. get_node_at_path plan (take j path)) (less_both m k)
  where
    less_both : (m k : ℕ) → m - suc k ≡ suc m - suc (suc k)
    less_both m k = omega arith

length-above :
    (plan n : PlanNode) (m : ℕ) (path : List ℕ)
    → get_node_at_path plan path ≡ some n
    → length (above plan m path) ≡ m
length-above plan n zero path at = refl
length-above plan n (suc m) path at =
    let (a, found) = prefix_leads plan n m path at in
    ap (λ o. length (or_skip o ++ above plan m path)) found ∙ ap suc (length-above plan n m path at)

-- For a path that leads to a node, and as much fuel as the path has indices, `get_ancestors`
-- returns a list as long as the path, of which entry `k` is the node at the path without its last
-- `k + 1` indices: the parent first, the root last, and nothing else.
pub get_ancestors_lem :
    (fuel : ℕ) (plan n : PlanNode) (p : NodePath)
    → length p.path ≤ fuel
    → get_node_at_path plan p.path ≡ some n
    → (ancestors : List PlanNode) × (get_ancestors fuel plan p ≡ some ancestors)
      × (length ancestors ≡ length p.path)
      × ((k : ℕ)
          → k < length p.path
          → get_elem? ancestors k ≡ get_node_at_path plan (take (length p.path - suc k) p.path))
unfolding get_ancestors
get_ancestors_lem fuel plan n p enough at = (
  above plan (length p.path) p.path,
  ap (ancestors_loop plan fuel []) (sym (take_all (length p.path) p.path (omega arith)))
      ∙ ancestors_loop-above plan fuel (length p.path) [] p.path (omega arith) enough,
  length-above plan n (length p.path) p.path at,
  λ k within. above-get_elem? plan n (length p.path) p.path k at within,
)
