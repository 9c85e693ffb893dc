-- ===== src/Merkle/Update/Branch.antt =====
-- One level of an update: into the child on the side of the key's bit.
use tylium.Prelude.{
  ℕ, suc, ◌+◌, ◌*◌, ◌≡◌, Option, none, some, List, ◌==◌, if◌then◌else◌, arith, Bool-cases, inl, inr,
}
use tylium.Merkle.Node.{Node, branch, Result, ok}
use tylium.Merkle.Tree.{get_bit, into}
use tylium.Merkle.Place.{top, top-suc, get_bit-lt, find, size, IsSound}

-- One for a value that is there.
abbrev pub present : Option (List ℕ) → ℕ
present none = 0
present (some v) = 1

-- The result of an update of `n` at `key` to `o`, where `n` stands at `depth` with `r` bits left
-- below the bits `p`.
pub record Updated (n : Node) (r p depth key : ℕ) (o : Option (List ℕ)) (res : Result Node)
    : Type 0 where
  pub node : Node
  pub succeeds : res ≡ ok node
  pub sound : IsSound node r p
  pub finds : (j : ℕ) → top j r ≡ p → find node depth j ≡ (if key == j then o else find n depth j)
  pub sizes : size node + present (find n depth key) ≡ size n + present o

-- The two children after an update below a branch.
pub record UpdatedPair (l r : Node) (b p depth key : ℕ) (o : Option (List ℕ))
    (res : Result (Node × Node)) : Type 0 where
  pub left : Node
  pub right : Node
  pub succeeds : res ≡ ok (left, right)
  pub sound_left : IsSound left b (2 * p)
  pub sound_right : IsSound right b (2 * p + 1)
  pub finds :
      (j : ℕ)
      → top j (suc b) ≡ p
      → find (branch left right) depth j ≡ (if key == j then o else find (branch l r) depth j)
  pub sizes :
      size left + size right + present (find (branch l r) depth key) ≡ size l + size r + present o

module _ (l r : Node) (b p depth key : ℕ) (o : Option (List ℕ)) (go : Node → Result Node)
    (at : depth + suc b ≡ 256) (above : top key (suc b) ≡ p) (sl : IsSound l b (2 * p))
    (sr : IsSound r b (2 * p + 1)) where
  into_left :
      get_bit key depth ≡ 0
      → Updated l b (2 * p) (depth + 1) key o (go l)
      → UpdatedPair l r b p depth key o (into key depth go (l, r))
  unfolding into find
  into_left bit u = record {
    left = u.node;
    right = r;
    succeeds = ground (arith, u.succeeds);
    sound_left = u.sound;
    sound_right = sr;
    finds = λ j h.
        ground (arith, u.finds j, top-suc j b depth at, top-suc key b depth at, get_bit-lt j depth);
    sizes = ground (arith, u.sizes);
  }

  into_right :
      get_bit key depth ≡ 1
      → Updated r b (2 * p + 1) (depth + 1) key o (go r)
      → UpdatedPair l r b p depth key o (into key depth go (l, r))
  unfolding into find
  into_right bit u = record {
    left = l;
    right = u.node;
    succeeds = ground (arith, u.succeeds);
    sound_left = sl;
    sound_right = u.sound;
    finds = λ j h.
        ground (arith, u.finds j, top-suc j b depth at, top-suc key b depth at, get_bit-lt j depth);
    sizes = ground (arith, u.sizes);
  }

  -- The recursive call is wanted on the child that the key leads to.
  pub into-UpdatedPair :
      ((n : Node) (q : ℕ) → IsSound n b q → top key b ≡ q → Updated n b q (depth + 1) key o (go n))
      → UpdatedPair l r b p depth key o (into key depth go (l, r))
  into-UpdatedPair ih = elim (Bool-cases (get_bit key depth == 0)) [
    | inl zero_bit ↦
        into_left (ground arith) (ih l (2 * p) sl (ground (arith, top-suc key b depth at)))
    | inr one_bit ↦
        into_right (ground (arith, get_bit-lt key depth))
          (ih r (2 * p + 1) sr (ground (arith, top-suc key b depth at, get_bit-lt key depth)))
  ]
