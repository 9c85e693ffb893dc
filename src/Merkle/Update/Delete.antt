-- ===== src/Merkle/Update/Delete.antt =====
-- `Delete` on a sound node.
use tylium.Prelude.{
  ℕ, zero, suc, ◌+◌, ◌*◌, ◌≤◌, ◌<◌, ◌≡◌, refl, ◌∙◌, Bool, true, false, none, List, ◌==◌,
  if◌then◌else◌, arith,
}
use tylium.Merkle.Node.{Node, empty, hash_node, leaf, branch}
use tylium.Merkle.Tree.{NodeStore, into, delete_at, collapse}
use tylium.Merkle.Place.{top, top-suc, get_bit-lt, find, size, IsSound}
use tylium.Merkle.Update.Branch.{Updated, UpdatedPair, into-UpdatedPair}

branch-two : (c d : Node) (b q : ℕ) → IsSound (branch c d) b q → 2 ≤ size c + size d
branch-two c d zero q s = absurd s
branch-two c d (suc b) q s = s.2

-- Taking a branch away above a lone leaf moves the leaf up, and changes no value.
collapse-IsSound :
    (l r : Node) (b p depth : ℕ)
    → depth + suc b ≡ 256
    → IsSound l b (2 * p)
    → IsSound r b (2 * p + 1)
    → IsSound (collapse l r) (suc b) p
unfolding collapse size
collapse-IsSound empty empty b p depth at sl sr = tt
collapse-IsSound empty (hash_node h) b p depth at sl sr = absurd sr
collapse-IsSound empty (leaf k v) b p depth at sl sr =
    ground (arith, top-suc k b depth at, get_bit-lt k depth)
collapse-IsSound empty (branch c d) b p depth at sl sr =
    (tt, sr, omega (arith, branch-two c d b (2 * p + 1) sr))
collapse-IsSound (hash_node h) r b p depth at sl sr = absurd sl
collapse-IsSound (leaf k v) empty b p depth at sl sr =
    ground (arith, top-suc k b depth at, get_bit-lt k depth)
collapse-IsSound (leaf k v) (hash_node h) b p depth at sl sr = absurd sr
collapse-IsSound (leaf k v) (leaf k' v') b p depth at sl sr = (sl, sr, omega arith)
collapse-IsSound (leaf k v) (branch c d) b p depth at sl sr =
    (sl, sr, omega (arith, branch-two c d b (2 * p + 1) sr))
collapse-IsSound (branch a c) empty b p depth at sl sr =
    (sl, tt, omega (arith, branch-two a c b (2 * p) sl))
collapse-IsSound (branch a c) (hash_node h) b p depth at sl sr = absurd sr
collapse-IsSound (branch a c) (leaf k v) b p depth at sl sr =
    (sl, sr, omega (arith, branch-two a c b (2 * p) sl))
collapse-IsSound (branch a c) (branch d e) b p depth at sl sr =
    (sl, sr, omega (arith, branch-two a c b (2 * p) sl))

collapse-find :
    (l r : Node) (b p depth j : ℕ)
    → depth + suc b ≡ 256
    → IsSound l b (2 * p)
    → IsSound r b (2 * p + 1)
    → top j (suc b) ≡ p
    → find (collapse l r) depth j ≡ find (branch l r) depth j
unfolding collapse find
collapse-find empty empty b p depth j at sl sr here = ground arith
collapse-find empty (hash_node h) b p depth j at sl sr here = absurd sr
collapse-find empty (leaf k v) b p depth j at sl sr here =
    ground (arith, top-suc k b depth at, top-suc j b depth at, get_bit-lt j depth)
collapse-find (leaf k v) empty b p depth j at sl sr here =
    ground (arith, top-suc k b depth at, top-suc j b depth at, get_bit-lt j depth)
collapse-find (hash_node h) r b p depth j at sl sr here = absurd sl
collapse-find empty (branch c d) b p depth j at sl sr here = refl
collapse-find (leaf k v) (hash_node h) b p depth j at sl sr here = refl
collapse-find (leaf k v) (leaf k' v') b p depth j at sl sr here = refl
collapse-find (leaf k v) (branch c d) b p depth j at sl sr here = refl
collapse-find (branch a c) empty b p depth j at sl sr here = refl
collapse-find (branch a c) (hash_node h) b p depth j at sl sr here = refl
collapse-find (branch a c) (leaf k v) b p depth j at sl sr here = refl
collapse-find (branch a c) (branch d e) b p depth j at sl sr here = refl

collapse-size : (l r : Node) → size (collapse l r) ≡ size l + size r
unfolding collapse size
collapse-size empty empty = omega arith
collapse-size empty (hash_node h) = omega arith
collapse-size empty (leaf k v) = omega arith
collapse-size empty (branch c d) = omega arith
collapse-size (hash_node h) r = omega arith
collapse-size (leaf k v) empty = omega arith
collapse-size (leaf k v) (hash_node h) = omega arith
collapse-size (leaf k v) (leaf k' v') = omega arith
collapse-size (leaf k v) (branch c d) = omega arith
collapse-size (branch a c) r = omega arith

size_branch : (l r : Node) → size (branch l r) ≡ size l + size r
unfolding size
size_branch l r = refl

delete_branch :
    (store : NodeStore) (f b p depth key : ℕ) (l r : Node)
    → depth + suc b ≡ 256
    → top key (suc b) ≡ p
    → UpdatedPair l r b p depth key none
        (into key depth (λ c. delete_at store f c key (depth + 1)) (l, r))
    → Updated (branch l r) (suc b) p depth key none (delete_at store (suc f) (branch l r) key depth)
unfolding delete_at
delete_branch store f b p depth key l r at above u = record {
  node = collapse u.left u.right;
  succeeds = ground (arith, u.succeeds);
  sound = collapse-IsSound u.left u.right b p depth at u.sound_left u.sound_right;
  finds =
      λ j h. collapse-find u.left u.right b p depth j at u.sound_left u.sound_right h ∙ u.finds j h;
  sizes = omega (arith, collapse-size u.left u.right, u.sizes, size_branch l r);
}

kept :
    (b : Bool) (r p k : ℕ) (v : List ℕ) → top k r ≡ p → IsSound (if b then empty else leaf k v) r p
kept true r p k v s = tt
kept false r p k v s = s

pub delete_at-Updated :
    (store : NodeStore) (f r p depth key : ℕ) (n : Node)
    → r < f
    → depth + r ≡ 256
    → top key r ≡ p
    → IsSound n r p
    → Updated n r p depth key none (delete_at store f n key depth)
unfolding delete_at find size
delete_at-Updated store zero r p depth key n enough at above s = absurd (omega arith)
delete_at-Updated store (suc f) r p depth key empty enough at above s = record {
  node = empty;
  succeeds = refl;
  sound = tt;
  finds = λ j h. ground arith;
  sizes = omega arith;
}
delete_at-Updated store (suc f) r p depth key (hash_node h) enough at above s = absurd s
delete_at-Updated store (suc f) r p depth key (leaf k v) enough at above s = record {
  node = if k == key then empty else leaf k v;
  succeeds = refl;
  sound = kept (k == key) r p k v s;
  finds = λ j h. ground arith;
  sizes = ground arith;
}
delete_at-Updated store (suc f) zero p depth key (branch a c) enough at above s = absurd s
delete_at-Updated store (suc f) (suc b) p depth key (branch a c) enough at above (sa, sc, two) =
    delete_branch store f b p depth key a c at above (
      into-UpdatedPair a c b p depth key none (λ c. delete_at store f c key (depth + 1)) at above sa
        sc
        (λ n q s here.
          delete_at-Updated store f b q (depth + 1) key n (omega arith) (omega arith) here s))
