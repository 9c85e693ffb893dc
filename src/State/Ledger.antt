-- ===== src/State/Ledger.antt =====
-- The abstract state: accounts, storage slots and code as maps, and the snapshots that can still
-- be returned to, the latest first. It has no tries, no journal and no roots.
use tylium.Prelude.{
  ℕ, suc, ◌-◌, Option, none, some, List, [], ◌∷◌, ◌==◌, if◌then◌else◌, length, drop, get_elem?, ltb,
}
use tylium.Types.{Account}
use tylium.State.Ops.{StateOps, or_new}

pub record View : Type 0 where
  pub accounts : ℕ → Option Account
  pub slots : ℕ → ℕ → ℕ

pub record Ledger : Type 0 where
  pub view : View
  pub codes : ℕ → Option (List ℕ)
  pub saved : List View

abbrev pub set_map {ℓ} : {A : Type ℓ} → ℕ → A → (ℕ → A) → ℕ → A
set_map k v m j = if k == j then v else m j

abbrev put_account : ℕ → Account → Ledger → Ledger
put_account a x s =
    let v = s.view in record s { view = record v { accounts = set_map a (some x) v.accounts } }

-- Setting a slot leaves an account behind, as the database does when it writes a storage root.
abbrev put_slot : ℕ → ℕ → ℕ → Ledger → Ledger
put_slot a k x s =
    let v = s.view in
    record s {
      view = record {
        accounts = set_map a (some (or_new (v.accounts a))) v.accounts;
        slots = set_map a (set_map k x (v.slots a)) v.slots;
      };
    }

abbrev pub restore : ℕ → Ledger → Ledger
restore id s =
    if ltb id (length s.saved)
    then (elim (get_elem? s.saved (length s.saved - suc id)) [
      | none ↦ s
      | some v ↦ record s { view = v; saved = drop (length s.saved - id) s.saved }
    ])
    else s

module _ (sha256 : List ℕ → ℕ) where
  abbrev pub ledger_ops : StateOps Ledger
  ledger_ops = record {
    get_account = λ a s. s.view.accounts a;
    set_account = put_account;
    get_storage = λ a k s. (s.view.slots a k, s);
    set_storage = put_slot;
    get_code = λ h s. s.codes h;
    set_code = λ a code s.
        let x = or_new (s.view.accounts a) in
        let t = put_account a (record x { code_hash = sha256 code }) s in
        record t { codes = set_map (sha256 code) (some code) s.codes };
    snapshot = λ s. (length s.saved, record s { saved = s.view ∷ s.saved });
    revert_to_snapshot = restore;
    commit = λ s. (0, record s { saved = [] });
    root = λ s. 0;
  }
