-- ===== src/Merkle/Place.antt =====
-- The shape of a tree whose nodes are all in memory: every leaf stands where the bits of its key
-- lead, and every branch has two leaves or more below it. Such a node is read by plain recursion.
use tylium.Prelude.{
  ℕ, zero, suc, ◌+◌, ◌-◌, ◌*◌, ◌/◌, ◌%◌, ◌^◌, ◌≤◌, ◌<◌, ◌≡◌, refl, ap, Option, none, some, List,
  ◌==◌, if◌then◌else◌, arith,
}
use native.Mathlib.Nat.{pow-suc, div-div-eq-div-mul}
use tylium.Merkle.Node.{Node, empty, hash_node, leaf, branch, ok}
use tylium.Merkle.Tree.{NodeStore, get_bit, get_at, on_side}

-- The bits of a key from its first down to the one with `r` bits behind it.
abbrev pub top : ℕ → ℕ → ℕ
top key r = key / 2 ^ r

-- The bit with `r` bits behind it, at depth 255 - r.
pub top-suc :
    (key r depth : ℕ) → depth + suc r ≡ 256 → top key r ≡ 2 * top key (suc r) + get_bit key depth
unfolding get_bit
top-suc key r depth at = omega (
  arith,
  ap (λ (k : ℕ). key / 2 ^ k % 2) (depth_of at),
  ap (λ (t : ℕ). key / t) (pow-suc 2 r),
  div-div-eq-div-mul key (2 ^ r) 2,
)
  where
    depth_of : depth + suc r ≡ 256 → 255 - depth ≡ r
    depth_of e = omega arith

pub get_bit-lt : (key depth : ℕ) → get_bit key depth < 2
unfolding get_bit
get_bit-lt key depth = omega arith

-- The value at a key below a node that stands at `depth`.
unfoldable pub find : Node → ℕ → ℕ → Option (List ℕ)
find empty depth key = none
find (hash_node h) depth key = none
find (leaf k v) depth key = if k == key then some v else none
find (branch l r) depth key =
    if get_bit key depth == 0 then find l (depth + 1) key else find r (depth + 1) key

-- The number of leaves.
unfoldable pub size : Node → ℕ
size empty = 0
size (hash_node h) = 0
size (leaf k v) = 1
size (branch l r) = size l + size r

-- With `r` bits left and the bits above them spelling `p`.
abbrev pub IsSound : Node → ℕ → ℕ → Type 0
IsSound empty r p = Unit
IsSound (hash_node h) r p = ⊥
IsSound (leaf k v) r p = top k r ≡ p
IsSound (branch a b) zero p = ⊥
IsSound (branch a b) (suc r) p =
    IsSound a r (2 * p) × IsSound b r (2 * p + 1) × (2 ≤ size a + size b)

module _ (store : NodeStore) where
  -- On a sound node the fuel is enough, no bit is out of range, and `get` is `find`.
  pub get_at-find :
      (f r depth p : ℕ) (n : Node) (key : ℕ)
      → r < f
      → depth + r ≡ 256
      → IsSound n r p
      → get_at store f n key depth ≡ ok (find n depth key)
  unfolding get_at find on_side
  get_at-find zero r depth p n key enough at s = absurd (omega arith)
  get_at-find (suc f) r depth p empty key enough at s = refl
  get_at-find (suc f) r depth p (hash_node h) key enough at s = absurd s
  get_at-find (suc f) r depth p (leaf k v) key enough at s = refl
  get_at-find (suc f) zero depth p (branch a b) key enough at s = absurd s
  get_at-find (suc f) (suc r) depth p (branch a b) key enough at (sa, sb, two) = ground (
    arith,
    get_at-find f r (depth + 1) (2 * p) a key (omega arith) (omega arith) sa,
    get_at-find f r (depth + 1) (2 * p + 1) b key (omega arith) (omega arith) sb,
  )
