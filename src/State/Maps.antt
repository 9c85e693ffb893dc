-- ===== src/State/Maps.antt =====
-- The maps that the tries of the database hold, and writes to them that are taken back.
use tylium.Prelude.{ℕ, ◌^◌, ◌<◌, ◌≡◌, sym, ap, Option, none, some, List, arith, ==→eq}
use mathlib.Core.Path.{fun_ext, subst}
use tylium.Merkle.Tree.{Tree, get}
use tylium.Merkle.Map.{Map, update, Holds, set-Holds, delete-Holds}
use tylium.State.Ledger.{set_map}
use tylium.State.Db

pub put_back-Holds :
    (t : Tree) (m : Map) (key : ℕ) (o : Option (List ℕ))
    → key < 2 ^ 256
    → Holds t m
    → Holds (Db.put_back key o t) (update m key o)
put_back-Holds t m key none fits h =
    let (t', done, holds) = delete-Holds t m h key fits in
    subst (λ x. Holds x (update m key none)) (sym (ap (Db.or_same t) done)) holds
put_back-Holds t m key (some v) fits h =
    let (t', done, holds) = set-Holds t m h key fits v in
    subst (λ x. Holds x (update m key (some v))) (sym (ap (Db.or_same t) done)) holds

pub got-get :
    (t : Tree) (m : Map) (key : ℕ) → key < 2 ^ 256 → Holds t m → Db.got (get t key) ≡ m key
got-get t m key fits h = ap Db.got (h.reads key fits)

pub update-restored :
    (m : Map) (key : ℕ) (o : Option (List ℕ)) → update (update m key o) key (m key) ≡ m
update-restored m key o = fun_ext λ j. ground (arith, ==→eq key j)

-- The abstract state: what the global trie and each storage trie hold.
pub record Maps : Type 0 where
  pub accounts : Map
  pub slots : ℕ → Map

abbrev pub put_slot : ℕ → ℕ → Option (List ℕ) → Maps → Maps
put_slot a k o m = record m { slots = set_map a (update (m.slots a) k o) m.slots }

pub put_slot-restored :
    (a k : ℕ) (o : Option (List ℕ)) (m : Maps) → put_slot a k (m.slots a k) (put_slot a k o m) ≡ m
put_slot-restored a k o m i = record {
  accounts = m.accounts;
  slots = fun_ext (λ b. fun_ext (λ j. same b j)) i;
}
  where
    same : (b j : ℕ) → (put_slot a k (m.slots a k) (put_slot a k o m)).slots b j ≡ m.slots b j
    same b j = ground (arith, ==→eq a b, ==→eq k j)

abbrev pub IsCached : ℕ → Db.StateDb → Type 0
IsCached a s = (t : Tree) × (s.storage_tries a ≡ some t)
