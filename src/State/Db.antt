-- ===== src/State/Db.antt =====
-- internal/state/statedb.go: the database over sparse Merkle trees. An error of a tree is dropped,
-- as the code drops it: nothing is read, and a write leaves the tree as it was.
use tylium.Prelude.{
  ℕ, true, false, Option, none, some, List, [], ◌∷◌, length, leb, ◌==◌, if◌then◌else◌,
}
use tylium.Bytes.{be}
use tylium.Types.{Account, bytes_to_hash256}
use tylium.Encoding.Account.{encode_account, decode_account}
use tylium.Encoding.Fields
use tylium.Merkle.Node.{Result, ok, err, empty}
use tylium.Merkle.Tree.{Tree, NodeStore, get, set, delete, root_hash, load_root, flush}
use tylium.State.Journal.{
  JournalEntry, account_entry, storage_entry, Journal, new_journal, record_entry, take_position,
  position, entries_from, truncated,
}
use tylium.State.Ops.{StateOps, or_new}
use tylium.State.Ledger.{set_map}

pub record StateDb : Type 0 where
  pub global_trie : Tree
  pub storage_tries : ℕ → Option Tree
  pub codes : ℕ → Option (List ℕ)
  pub journal : Journal
  pub finalized_snap : Option Tree
  pub finalized_storage_snap : ℕ → Option Tree

-- `data, _ := trie.Get(key)`
abbrev pub got : Result (Option (List ℕ)) → Option (List ℕ)
got (ok found) = found
got (err e) = none

-- A write whose error is dropped.
abbrev pub or_same : Tree → Result Tree → Tree
or_same t (ok t') = t'
or_same t (err e) = t

abbrev pub new_tree : NodeStore → Tree
new_tree store = record { root = empty; store = store }

-- The write or deletion of a key, as it is done again in a revert.
abbrev pub put_back : ℕ → Option (List ℕ) → Tree → Tree
put_back key none t = or_same t (delete t key)
put_back key (some old) t = or_same t (set t key old)

-- SHA-256, and the store behind each account's storage trie (`storeFactory`).
module _ (sha256 : List ℕ → ℕ) (store_factory : ℕ → NodeStore) where
  -- `NewStateDB`
  abbrev pub new_db : NodeStore → StateDb
  new_db store = record {
    global_trie = new_tree store;
    storage_tries = λ a. none;
    codes = λ h. none;
    journal = new_journal;
    finalized_snap = none;
    finalized_storage_snap = λ a. none;
  }

  abbrev pub account_key : ℕ → ℕ
  account_key a = sha256 (be 20 a)

  abbrev pub decoded : Option (List ℕ) → Option Account
  decoded none = none
  decoded (some bytes) = elim (decode_account bytes) [
    | Fields.ok acct ↦ some acct
    | Fields.err e ↦ none
  ]

  unfoldable pub get_account : ℕ → StateDb → Option Account
  get_account a s = decoded (got (get s.global_trie (account_key a)))

  unfoldable pub set_account : ℕ → Account → StateDb → StateDb
  set_account a acct s =
      let old = got (get s.global_trie (account_key a)) in
      record s {
        journal = record_entry (account_entry a old) s.journal;
        global_trie =
            or_same s.global_trie (set s.global_trie (account_key a) (encode_account acct));
      }

  -- The trie that `getStorageTrie` makes for an account that has none in the cache.
  unfoldable pub fresh_trie : ℕ → StateDb → Tree
  fresh_trie a s = elim (get_account a s) [
    | none ↦ new_tree (store_factory a)
    | some acct ↦
        if acct.storage_root == 0
        then new_tree (store_factory a)
        else load_root sha256 (store_factory a) acct.storage_root
  ]

  unfoldable pub get_storage_trie : ℕ → StateDb → Tree × StateDb
  get_storage_trie a s = elim (s.storage_tries a) [
    | some t ↦ (t, s)
    | none ↦
        let t = fresh_trie a s in
        (t, record s { storage_tries = set_map a (some t) s.storage_tries })
  ]

  abbrev pub slot_value : Option (List ℕ) → ℕ
  slot_value none = 0
  slot_value (some bytes) = bytes_to_hash256 bytes

  unfoldable pub get_storage : ℕ → ℕ → StateDb → ℕ × StateDb
  get_storage a key s = let r = get_storage_trie a s in (slot_value (got (get r.0 key)), r.1)

  -- A zero value is a deletion.
  abbrev pub stored_bytes : ℕ → Option (List ℕ)
  stored_bytes v = if v == 0 then none else some (be 32 v)

  -- The trie is shared with the cache, so the cache has the new one.
  unfoldable pub set_storage : ℕ → ℕ → ℕ → StateDb → StateDb
  set_storage a key v s =
      let r = get_storage_trie a s in
      let old = got (get r.0 key) in
      let t = put_back key (stored_bytes v) r.0 in
      let s₁ = record r.1 {
        journal = record_entry (storage_entry a key old) r.1.journal;
        storage_tries = set_map a (some t) r.1.storage_tries;
      } in
      let acct = or_new (get_account a s₁) in
      set_account a (record acct { storage_root = root_hash sha256 t }) s₁

  unfoldable pub set_code : ℕ → List ℕ → StateDb → StateDb
  set_code a code s =
      let h = sha256 code in
      let s₁ = record s { codes = set_map h (some code) s.codes } in
      let acct = or_new (get_account a s₁) in set_account a (record acct { code_hash = h }) s₁

  unfoldable pub load_code : ℕ → List ℕ → StateDb → StateDb
  load_code h code s = record s { codes = set_map h (some code) s.codes }

  -- One round of the loop of `RevertTo`.
  unfoldable pub undo : JournalEntry → StateDb → StateDb
  undo (account_entry a old) s = record s {
    global_trie = put_back (account_key a) old s.global_trie;
  }
  undo (storage_entry a key old) s =
      let r = get_storage_trie a s in
      record r.1 { storage_tries = set_map a (some (put_back key old r.0)) r.1.storage_tries }

  unfoldable pub undo_all : List JournalEntry → StateDb → StateDb
  undo_all [] s = s
  undo_all (e ∷ es) s = undo_all es (undo e s)

  -- `RevertToSnapshot`
  unfoldable pub revert_to : ℕ → StateDb → StateDb
  revert_to id s = elim (leb (length s.journal.snapshots) id) [
    | true ↦ s
    | false ↦ elim (position id s.journal) [
      | none ↦ s
      | some target ↦
          let s₁ = undo_all (entries_from target s.journal) s in
          record s₁ { journal = truncated id target s.journal }
    ]
  ]

  unfoldable pub snapshot : StateDb → ℕ × StateDb
  snapshot s = let r = take_position s.journal in (r.0, record s { journal = r.1 })

  unfoldable pub root : StateDb → ℕ
  root s = root_hash sha256 s.global_trie

  unfoldable pub commit : StateDb → ℕ × StateDb
  commit s = (root s, record s { journal = new_journal })

  -- `LoadTrieRoot` and `ClearStorageTries`
  unfoldable pub load_trie_root : ℕ → StateDb → StateDb
  load_trie_root h s = record s { global_trie = load_root sha256 s.global_trie.store h }

  unfoldable pub clear_storage_tries : StateDb → StateDb
  clear_storage_tries s = record s { storage_tries = λ a. none; journal = new_journal }

  -- `FlushTries`. A store of nodes takes what it is given.
  unfoldable pub flush_tries : StateDb → StateDb
  flush_tries s = record s {
    global_trie = flush sha256 s.global_trie;
    storage_tries = λ a. elim (s.storage_tries a) [ none ↦ none | some t ↦ some (flush sha256 t) ];
  }

  -- A snapshot is the tree as it is: its root and its store.
  unfoldable pub snapshot_finalized : StateDb → StateDb
  snapshot_finalized s = record s {
    finalized_snap = some s.global_trie;
    finalized_storage_snap = s.storage_tries;
  }

  -- `none` where the code returns false.
  unfoldable pub get_finalized_balance : ℕ → StateDb → Option ℕ
  get_finalized_balance a s = elim s.finalized_snap [
    | none ↦ none
    | some snap ↦ some (or_new (decoded (got (get snap (account_key a))))).balance
  ]

  -- The snapshot of a storage trie that was not in the cache, from the finalized account.
  unfoldable pub finalized_trie : ℕ → Tree → Option Tree
  finalized_trie a snap = elim (decoded (got (get snap (account_key a)))) [
    | none ↦ none
    | some acct ↦
        if acct.storage_root == 0
        then none
        else some (load_root sha256 (store_factory a) acct.storage_root)
  ]

  unfoldable pub get_finalized_storage : ℕ → ℕ → StateDb → Option ℕ × StateDb
  get_finalized_storage a key s = elim s.finalized_snap [
    | none ↦ (none, s)
    | some snap ↦ elim (s.finalized_storage_snap a) [
      | some t ↦ (some (slot_value (got (get t key))), s)
      | none ↦ elim (finalized_trie a snap) [
        | none ↦ (some 0, s)
        | some t ↦ (
          some (slot_value (got (get t key))),
          record s { finalized_storage_snap = set_map a (some t) s.finalized_storage_snap },
        )
      ]
    ]
  ]

  abbrev pub db_ops : StateOps StateDb
  db_ops = record {
    get_account = get_account;
    set_account = set_account;
    get_storage = get_storage;
    set_storage = set_storage;
    get_code = λ h s. s.codes h;
    set_code = set_code;
    snapshot = snapshot;
    revert_to_snapshot = revert_to;
    commit = commit;
    root = root;
  }
