-- ===== src/Merkle/Canonical.antt =====
-- A sound node is determined by the values below it: the tree does not remember in what order it
-- was filled and emptied.
use tylium.Prelude.{
  ℕ, zero, suc, ◌+◌, ◌*◌, ◌≤◌, ◌≡◌, refl, ap, sym, ◌∙◌, some, List, leb, arith, Bool-cases, inl,
  inr,
}
use mathlib.Core.Path.{ap₂}
use tylium.Merkle.Node.{Node, empty, hash_node, leaf, branch}
use tylium.Merkle.Place.{top, top-suc, get_bit-lt, find, size, IsSound}

-- Below a branch a key is looked up in the child that its bits lead to.
find_left :
    (a c : Node) (b p depth j : ℕ)
    → depth + suc b ≡ 256
    → top j b ≡ 2 * p
    → (top j (suc b) ≡ p) × (find (branch a c) depth j ≡ find a (depth + 1) j)
unfolding find
find_left a c b p depth j at here = (
  omega (arith, top-suc j b depth at, get_bit-lt j depth),
  ground (arith, top-suc j b depth at, get_bit-lt j depth),
)

find_right :
    (a c : Node) (b p depth j : ℕ)
    → depth + suc b ≡ 256
    → top j b ≡ 2 * p + 1
    → (top j (suc b) ≡ p) × (find (branch a c) depth j ≡ find c (depth + 1) j)
unfolding find
find_right a c b p depth j at here = (
  omega (arith, top-suc j b depth at, get_bit-lt j depth),
  ground (arith, top-suc j b depth at, get_bit-lt j depth),
)

-- A node with a leaf has a key.
inhabited :
    (n : Node) (r p depth : ℕ)
    → depth + r ≡ 256
    → IsSound n r p
    → 1 ≤ size n
    → (j : ℕ) × (v : List ℕ) × (top j r ≡ p) × (find n depth j ≡ some v)
unfolding find size
inhabited empty r p depth at s some_leaf = absurd (omega arith)
inhabited (hash_node h) r p depth at s some_leaf = absurd s
inhabited (leaf k v) r p depth at s some_leaf = (k, v, s, ground arith)
inhabited (branch a c) zero p depth at s some_leaf = absurd s
inhabited (branch a c) (suc b) p depth at (sa, sc, two) some_leaf =
    elim (Bool-cases (leb 1 (size a))) [
      | inl left ↦
          let (j, v, here, found) =
            inhabited a b (2 * p) (depth + 1) (omega arith) sa (ground arith) in
          let (above, same) = find_left a c b p depth j at here in (j, v, above, same ∙ found)
      | inr none_left ↦
          let (j, v, here, found) =
            inhabited c b (2 * p + 1) (depth + 1) (omega arith) sc (ground arith) in
          let (above, same) = find_right a c b p depth j at here in (j, v, above, same ∙ found)
    ]

-- Two nodes agree on every key that leads to their place.
abbrev pub Agree : Node → Node → ℕ → ℕ → ℕ → Type 0
Agree n n' r p depth = (j : ℕ) → top j r ≡ p → find n depth j ≡ find n' depth j

found_in_leaf : (k j depth : ℕ) (v w : List ℕ) → find (leaf k v) depth j ≡ some w → k ≡ j
unfolding find
found_in_leaf k j depth v w h = ground arith

-- A single leaf does not hold what a node with two leaves holds.
leaf_apart :
    (k : ℕ) (v : List ℕ) (n : Node) (r p depth : ℕ)
    → depth + r ≡ 256
    → IsSound n r p
    → 2 ≤ size n
    → ¬ (Agree (leaf k v) n r p depth)
unfolding size find
leaf_apart k v empty r p depth at s two agree = absurd (omega arith)
leaf_apart k v (hash_node h) r p depth at s two agree = absurd s
leaf_apart k v (leaf k' v') r p depth at s two agree = absurd (omega arith)
leaf_apart k v (branch a c) zero p depth at s two agree = absurd s
leaf_apart k v (branch a c) (suc b) p depth at (sa, sc, enough) two agree =
    elim (Bool-cases (leb 1 (size a))) [
      | inr none_left ↦
          leaf_apart k v c b (2 * p + 1) (depth + 1) (omega arith) sc (ground arith) in_right
      | inl left ↦ elim (Bool-cases (leb 1 (size c))) [
        | inr none_right ↦
            leaf_apart k v a b (2 * p) (depth + 1) (omega arith) sa (ground arith) in_left
        | inl right ↦ apart (ground arith) (ground arith)
      ]
    ]
  where
    in_left : Agree (leaf k v) a b (2 * p) (depth + 1)
    in_left j here = let (above, same) = find_left a c b p depth j at here in agree j above ∙ same

    in_right : Agree (leaf k v) c b (2 * p + 1) (depth + 1)
    in_right j here = let (above, same) = find_right a c b p depth j at here in agree j above ∙ same

    apart : 1 ≤ size a → 1 ≤ size c → ⊥
    apart left right =
        let (j, w, here, found) = inhabited a b (2 * p) (depth + 1) (omega arith) sa left in
        let (j', w', here', found') =
          inhabited c b (2 * p + 1) (depth + 1) (omega arith) sc right in
        let e = found_in_leaf k j (depth + 1) v w (in_left j here ∙ found) in
        let e' = found_in_leaf k j' (depth + 1) v w' (in_right j' here' ∙ found') in
        absurd (omega (arith, ap (λ (x : ℕ). top x b) e, ap (λ (x : ℕ). top x b) e'))

module _ (a c a' c' : Node) (b p depth : ℕ) (at : depth + suc b ≡ 256)
    (agree : Agree (branch a c) (branch a' c') (suc b) p depth) where
  Agree-left : Agree a a' b (2 * p) (depth + 1)
  Agree-left j here =
      let (above, same) = find_left a c b p depth j at here in
      sym same ∙ agree j above ∙ (find_left a' c' b p depth j at here).1

  Agree-right : Agree c c' b (2 * p + 1) (depth + 1)
  Agree-right j here =
      let (above, same) = find_right a c b p depth j at here in
      sym same ∙ agree j above ∙ (find_right a' c' b p depth j at here).1

empty_apart :
    (n : Node) (r p depth : ℕ)
    → depth + r ≡ 256
    → IsSound n r p
    → 1 ≤ size n
    → ¬ (Agree empty n r p depth)
unfolding find
empty_apart n r p depth at s some_leaf agree =
    let (j, v, here, found) = inhabited n r p depth at s some_leaf in cc (agree j here ∙ found)

leaves-Agree :
    (k k' : ℕ) (v v' : List ℕ) (r p depth : ℕ)
    → top k r ≡ p
    → Agree (leaf k v) (leaf k' v') r p depth
    → leaf k v ≡ leaf k' v'
unfolding find
leaves-Agree k k' v v' r p depth here agree = ground (arith, agree k here)

Agree-sym : (n n' : Node) (r p depth : ℕ) → Agree n n' r p depth → Agree n' n r p depth
Agree-sym n n' r p depth agree j here = sym (agree j here)

-- Sound nodes in one place with the same values are the same node.
pub node_unique :
    (n n' : Node) (r p depth : ℕ)
    → depth + r ≡ 256
    → IsSound n r p
    → IsSound n' r p
    → Agree n n' r p depth
    → n ≡ n'
unfolding size
node_unique empty empty r p depth at s s' agree = refl
node_unique empty (leaf k v) r p depth at s s' agree =
    absurd (empty_apart (leaf k v) r p depth at s' (omega arith) agree)
node_unique empty (branch a c) zero p depth at s s' agree = absurd s'
node_unique empty (branch a c) (suc b) p depth at s s' agree =
    absurd (empty_apart (branch a c) (suc b) p depth at s' (omega arith) agree)
node_unique (leaf k v) empty r p depth at s s' agree = absurd (
    empty_apart (leaf k v) r p depth at s (omega arith)
      (Agree-sym (leaf k v) empty r p depth agree))
node_unique (leaf k v) (leaf k' v') r p depth at s s' agree =
    leaves-Agree k k' v v' r p depth s agree
node_unique (leaf k v) (branch a c) zero p depth at s s' agree = absurd s'
node_unique (leaf k v) (branch a c) (suc b) p depth at s s' agree =
    absurd (leaf_apart k v (branch a c) (suc b) p depth at s' s'.2 agree)
node_unique (branch a c) empty zero p depth at s s' agree = absurd s
node_unique (branch a c) empty (suc b) p depth at s s' agree = absurd (
    empty_apart (branch a c) (suc b) p depth at s (omega arith)
      (Agree-sym (branch a c) empty (suc b) p depth agree))
node_unique (branch a c) (leaf k v) zero p depth at s s' agree = absurd s
node_unique (branch a c) (leaf k v) (suc b) p depth at s s' agree = absurd (
    leaf_apart k v (branch a c) (suc b) p depth at s s.2
      (Agree-sym (branch a c) (leaf k v) (suc b) p depth agree))
node_unique (branch a c) (branch a' c') zero p depth at s s' agree = absurd s
node_unique (branch a c) (branch a' c') (suc b) p depth at s s' agree =
    ap₂ branch
      (node_unique a a' b (2 * p) (depth + 1) (omega arith) s.0 s'.0
        (Agree-left a c a' c' b p depth at agree))
      (node_unique c c' b (2 * p + 1) (depth + 1) (omega arith) s.1 s'.1
        (Agree-right a c a' c' b p depth at agree))
node_unique (hash_node h) n' r p depth at s s' agree = absurd s
node_unique n (hash_node h) r p depth at s s' agree = absurd s'
