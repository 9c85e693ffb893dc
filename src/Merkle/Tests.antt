-- ===== src/Merkle/Tests.antt =====
-- Small trees, and the theorems there.
use tylium.Prelude.{refl, true, ℕ, ◌+◌, ◌%◌, ◌^◌, ◌≡◌, ◌≢◌, some, none, [], ◌∷◌, arith}
use tylium.Bytes.{be, shift_in}
use tylium.Merkle.Node.{HashFunc, empty, ok}
use tylium.Merkle.Tree.{NodeStore, Tree, get_bit, set, delete, root_hash}
use tylium.Merkle.Map.{
  Map, update, Holds, Holds-ext, empty-Holds, set-Holds, delete-Holds, Holds-root_hash,
}
use tylium.Merkle.Proof.{Proof, prove, verify_proof}
use tylium.Merkle.Proved.{prove-verify_proof}
use tylium.Merkle.Reload.{two_leaves, reloaded, IsApart, delete-reloaded}

-- A stand-in for SHA-256.
abbrev toy_hash : HashFunc
toy_hash bytes = shift_in 1 bytes % 2305843009213693951 + 1

abbrev no_store : NodeStore
no_store h = none

abbrev new_tree : Tree
new_tree = record { root = empty; store = no_store }

abbrev no_entries : Map
no_entries j = none

set-Holds_example :
    (t' : Tree) × (set new_tree 5 (1 ∷ []) ≡ ok t') × Holds t' (update no_entries 5 (some (1 ∷ [])))
set-Holds_example = set-Holds new_tree no_entries (empty-Holds no_store) 5 (omega arith) (1 ∷ [])

abbrev one_entry : Map
one_entry = update no_entries 5 (some (1 ∷ []))

abbrev first : (t' : Tree) × (set new_tree 5 (1 ∷ []) ≡ ok t') × Holds t' one_entry
first = set-Holds new_tree no_entries (empty-Holds no_store) 5 (omega arith) (1 ∷ [])

-- The second key shares all bits but the last two with the first.
abbrev second :
    (t' : Tree) × (set first.0 6 (2 ∷ []) ≡ ok t') × Holds t' (update one_entry 6 (some (2 ∷ [])))
second = set-Holds first.0 one_entry first.2 6 (omega arith) (2 ∷ [])

abbrev third :
    (t' : Tree) × (delete second.0 6 ≡ ok t')
    × Holds t' (update (update one_entry 6 (some (2 ∷ []))) 6 none)
third = delete-Holds second.0 (update one_entry 6 (some (2 ∷ []))) second.2 6 (omega arith)

delete-Holds_example :
    (t' : Tree) × (delete second.0 5 ≡ ok t')
    × Holds t' (update (update one_entry 6 (some (2 ∷ []))) 5 none)
delete-Holds_example =
    delete-Holds second.0 (update one_entry 6 (some (2 ∷ []))) second.2 5 (omega arith)

third-Holds : Holds third.0 one_entry
third-Holds =
    Holds-ext third.0 (update (update one_entry 6 (some (2 ∷ []))) 6 none) one_entry third.2
      (λ j. ground arith)

-- One entry written, and two written and one of them deleted.
Holds-root_hash_example : root_hash toy_hash first.0 ≡ root_hash toy_hash third.0
Holds-root_hash_example = Holds-root_hash toy_hash first.0 third.0 one_entry first.2 third-Holds

abbrev far : ℕ
far = 2 ^ 255

toy-IsApart : IsApart toy_hash 5 far (1 ∷ []) (2 ∷ []) no_store
unfolding shift_in be get_bit
toy-IsApart = omega arith

delete-reloaded_example :
    (u u' : Tree) × (delete (two_leaves toy_hash 5 far (1 ∷ []) (2 ∷ []) no_store) 5 ≡ ok u)
    × (delete (reloaded toy_hash 5 far (1 ∷ []) (2 ∷ []) no_store) 5 ≡ ok u')
    × (root_hash toy_hash (two_leaves toy_hash 5 far (1 ∷ []) (2 ∷ []) no_store)
        ≡ root_hash toy_hash (reloaded toy_hash 5 far (1 ∷ []) (2 ∷ []) no_store))
    × (root_hash toy_hash u ≢ root_hash toy_hash u')
delete-reloaded_example = delete-reloaded toy_hash 5 far (1 ∷ []) (2 ∷ []) no_store toy-IsApart

prove-verify_proof_example :
    (proof : Proof) × ((prove toy_hash second.0 6 ≡ ok proof)
      × ((proof.key ≡ 6)
          × ((proof.value ≡ some (2 ∷ []))
              × (verify_proof toy_hash (root_hash toy_hash second.0) proof ≡ ok true))))
prove-verify_proof_example =
    prove-verify_proof toy_hash second.0 (update one_entry 6 (some (2 ∷ []))) second.2 6
      (omega arith) (2 ∷ []) refl
