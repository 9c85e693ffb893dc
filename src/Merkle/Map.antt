-- ===== src/Merkle/Map.antt =====
-- The contract of a tree in memory: it is a finite map from 256-bit keys to values, and its root
-- hash depends on the map alone.
use tylium.Prelude.{
  ℕ, ◌^◌, ◌<◌, ◌≡◌, sym, ap, ◌∙◌, Option, none, some, List, ◌==◌, if◌then◌else◌, arith,
}
use tylium.Merkle.Node.{HashFunc, Node, empty, ok, hash}
use tylium.Merkle.Tree.{Tree, NodeStore, get, set, delete, root_hash}
use tylium.Merkle.Place.{top, find, IsSound, get_at-find}
use tylium.Merkle.Update.{set_at-Updated, delete_at-Updated}
use tylium.Merkle.Canonical.{node_unique}

-- The map that is asked of a tree.
abbrev pub Map : Type 0
Map = ℕ → Option (List ℕ)

abbrev pub update : Map → ℕ → Option (List ℕ) → Map
update m key o j = if key == j then o else m j

-- `t` holds the map `m`: its nodes are in memory and in their places, and `Get` reads `m`.
pub record Holds (t : Tree) (m : Map) : Type 0 where
  pub placed : IsSound t.root 256 0
  pub reads : (j : ℕ) → j < 2 ^ 256 → get t j ≡ ok (m j)

pub Holds-ext : (t : Tree) (m m' : Map) → Holds t m → ((j : ℕ) → m j ≡ m' j) → Holds t m'
Holds-ext t m m' h same = record {
  placed = h.placed;
  reads = λ j small. h.reads j small ∙ ap ok (same j);
}

at_root : (key : ℕ) → key < 2 ^ 256 → top key 256 ≡ 0
at_root key h = omega arith

get-find : (t : Tree) (j : ℕ) → IsSound t.root 256 0 → get t j ≡ ok (find t.root 0 j)
unfolding get
get-find t j s = get_at-find t.store 514 256 0 0 t.root j (omega arith) (omega arith) s

-- A new tree holds the map that is empty everywhere.
pub empty-Holds : (store : NodeStore) → Holds (record { root = empty; store = store }) (λ j. none)
unfolding find
empty-Holds store = record {
  placed = tt;
  reads = λ j h. get-find (record { root = empty; store = store }) j tt;
}

finds : (t : Tree) (m : Map) → Holds t m → (j : ℕ) → j < 2 ^ 256 → find t.root 0 j ≡ m j
finds t m h j small = cc (get-find t j h.placed, h.reads j small)

module _ (t : Tree) (m : Map) (h : Holds t m) (key : ℕ) (fits : key < 2 ^ 256) where
  updated :
      (o : Option (List ℕ)) (n : Node)
      → IsSound n 256 0
      → ((j : ℕ) → top j 256 ≡ 0 → find n 0 j ≡ (if key == j then o else find t.root 0 j))
      → Holds (record t { root = n }) (update m key o)
  updated o n s f = record {
    placed = s;
    reads = λ j small.
        get-find (record t { root = n }) j s
        ∙ ap ok (f j (at_root j small) ∙ ap (λ x. if key == j then o else x) (finds t m h j small));
  }

  -- `Set` of a 256-bit key on a tree that holds `m` succeeds, and the tree then holds `m` with the
  -- value at the key; no other key changes.
  pub set-Holds :
      (value : List ℕ)
      → (t' : Tree) × (set t key value ≡ ok t') × Holds t' (update m key (some value))
  unfolding set
  set-Holds value =
      let u =
        set_at-Updated t.store value 514 256 0 0 key t.root (omega arith) (omega arith)
          (at_root key fits) h.placed in
      (
        record t { root = u.node },
        ground (arith, u.succeeds),
        updated (some value) u.node u.sound u.finds,
      )

  -- `Delete` of a 256-bit key succeeds, whether the key is there or not, and the tree then holds
  -- `m` without it.
  pub delete-Holds : (t' : Tree) × (delete t key ≡ ok t') × Holds t' (update m key none)
  unfolding delete
  delete-Holds =
      let u =
        delete_at-Updated t.store 514 256 0 0 key t.root (omega arith) (omega arith)
          (at_root key fits) h.placed in
      (record t { root = u.node }, ground (arith, u.succeeds), updated none u.node u.sound u.finds)

-- Two trees in memory that hold the same map have the same nodes, so the same root hash under
-- every hash function, whatever sequence of writes and deletions made each of them.
pub Holds-root_hash :
    (fn : HashFunc) (t t' : Tree) (m : Map)
    → Holds t m
    → Holds t' m
    → root_hash fn t ≡ root_hash fn t'
unfolding root_hash
Holds-root_hash fn t t' m h h' = ap (hash fn) (
    node_unique t.root t'.root 256 0 0 (omega arith) h.placed h'.placed
      (λ j here. finds t m h j (omega (arith, here)) ∙ sym (finds t' m h' j (omega (arith, here)))))
