-- ===== src/State/Undo.antt =====
-- What the journal is for: a revert to a snapshot undoes all that was written since.
use tylium.Prelude.{
  ℕ, ◌^◌, ◌<◌, ◌≡◌, refl, inl, inr, Option, none, some, List, [], ◌∷◌, ◌==◌, All, arith, Bool-cases,
}
use mathlib.Core.Path.{subst}
use tylium.Bytes.{be}
use tylium.Merkle.Tree.{Tree, NodeStore}
use tylium.Merkle.Map.{Map, update, Holds}
use tylium.State.Ops.{or_new}
use tylium.State.Ledger.{set_map}
use tylium.State.Journal.{JournalEntry, account_entry, storage_entry}
use tylium.State.Db
use tylium.State.Maps.{put_back-Holds, update-restored, Maps, put_slot, IsCached}

module _ (sha256 : List ℕ → ℕ) (store_factory : ℕ → NodeStore)
    (sha_fits : (b : List ℕ) → sha256 b < 2 ^ 256) where
  abbrev pub put_account : ℕ → Option (List ℕ) → Maps → Maps
  put_account a o m = record m { accounts = update m.accounts (sha256 (be 20 a)) o }

  pub put_account-restored :
      (a : ℕ) (o : Option (List ℕ)) (m : Maps)
      → put_account a (m.accounts (sha256 (be 20 a))) (put_account a o m) ≡ m
  put_account-restored a o m i = record m {
    accounts = update-restored m.accounts (sha256 (be 20 a)) o i;
  }

  unfoldable pub undo_map : JournalEntry → Maps → Maps
  undo_map (account_entry a old) m = put_account a old m
  undo_map (storage_entry a k old) m = put_slot a k old m

  unfoldable pub undo_maps : List JournalEntry → Maps → Maps
  undo_maps [] m = m
  undo_maps (e ∷ es) m = undo_maps es (undo_map e m)

  -- The tries in memory hold the maps.
  pub record Tracks (m : Maps) (s : Db.StateDb) : Type 0 where
    pub global : Holds s.global_trie m.accounts
    pub cached : (a : ℕ) (t : Tree) → s.storage_tries a ≡ some t → Holds t (m.slots a)

  abbrev pub IsUndoable : (ℕ → Type 0) → JournalEntry → Type 0
  IsUndoable C (account_entry a old) = Unit
  IsUndoable C (storage_entry a k old) = C a × (k < 2 ^ 256)

  pub fresh_trie-new :
      (s : Db.StateDb) (a : ℕ)
      → (or_new (Db.get_account sha256 store_factory a s)).storage_root ≡ 0
      → Db.fresh_trie sha256 store_factory a s ≡ Db.new_tree (store_factory a)
  unfolding Db.fresh_trie
  fresh_trie-new s a rootless = ground arith

  pub fresh-loads :
      (s : Db.StateDb) (a : ℕ) (t : Tree)
      → s.storage_tries a ≡ none
      → Db.fresh_trie sha256 store_factory a s ≡ t
      → Db.get_storage_trie sha256 store_factory a s
        ≡ (t, record s { storage_tries = set_map a (some t) s.storage_tries })
  unfolding Db.get_storage_trie
  fresh-loads s a t nothing e = ground arith

  module _ (C : ℕ → Type 0) where
    abbrev pub HasCached : Db.StateDb → Type 0
    HasCached s = (a : ℕ) → C a → IsCached a s

    pub cached_trie :
        (a : ℕ) (s : Db.StateDb) (t : Tree)
        → s.storage_tries a ≡ some t
        → Db.get_storage_trie sha256 store_factory a s ≡ (t, s)
    unfolding Db.get_storage_trie
    cached_trie a s t h = ground arith

    set_map-cached :
        (s : Db.StateDb) (a : ℕ) (t : Tree)
        → HasCached s
        → (b : ℕ) → C b
        → (u : Tree) × (set_map a (some t) s.storage_tries b ≡ some u)
    set_map-cached s a t has b c = elim (Bool-cases (a == b)) [
      | inl same ↦ (t, ground arith)
      | inr other ↦ let (u, there) = has b c in (u, ground arith)
    ]

    pub set_map-Holds :
        (m : Maps) (s : Db.StateDb) (a : ℕ) (t : Tree) (f : Map)
        → ((b : ℕ) (u : Tree) → s.storage_tries b ≡ some u → Holds u (m.slots b))
        → Holds t f
        → (b : ℕ) (u : Tree) → set_map a (some t) s.storage_tries b ≡ some u
        → Holds u (set_map a f m.slots b)
    set_map-Holds m s a t f cached h b u e = elim (Bool-cases (a == b)) [
      | inl same ↦ Holds-at t u f (set_map a f m.slots b) (ground arith) (ground arith) h
      | inr other ↦
          Holds-at u u (m.slots b) (set_map a f m.slots b) refl (ground arith)
            (cached b u (ground arith))
    ]
      where
        Holds-at : (t u : Tree) (f g : Map) → t ≡ u → f ≡ g → Holds t f → Holds u g
        Holds-at t u f g p q x = subst (λ y. Holds y g) p (subst (λ y. Holds t y) q x)

    undo-Tracks :
        (e : JournalEntry) (m : Maps) (s : Db.StateDb)
        → IsUndoable C e
        → HasCached s
        → Tracks m s
        → Tracks (undo_map e m) (Db.undo sha256 store_factory e s)
          × HasCached (Db.undo sha256 store_factory e s)
    unfolding Db.undo undo_map
    undo-Tracks (account_entry a old) m s undoable has tr = (
      record {
        global =
            put_back-Holds s.global_trie m.accounts (sha256 (be 20 a)) old (sha_fits (be 20 a))
              tr.global;
        cached = tr.cached;
      },
      has,
    )
    undo-Tracks (storage_entry a k old) m s undoable has tr =
        let (t, there) = has a undoable.0 in
        let held = put_back-Holds t (m.slots a) k old undoable.1 (tr.cached a t there) in
        rw (cached_trie a s t there) (
          record {
            global = tr.global;
            cached =
                set_map-Holds m s a (Db.put_back k old t) (update (m.slots a) k old) tr.cached held;
          },
          set_map-cached s a (Db.put_back k old t) has,
        )

    pub undo_all-Tracks :
        (es : List JournalEntry) (m : Maps) (s : Db.StateDb)
        → All (IsUndoable C) es
        → HasCached s
        → Tracks m s
        → Tracks (undo_maps es m) (Db.undo_all sha256 store_factory es s)
          × HasCached (Db.undo_all sha256 store_factory es s)
    unfolding Db.undo_all undo_maps
    undo_all-Tracks [] m s undoable has tr = (tr, has)
    undo_all-Tracks (e ∷ es) m s undoable has tr =
        let (tr', has') = undo-Tracks e m s undoable.0 has tr in
        undo_all-Tracks es (undo_map e m) (Db.undo sha256 store_factory e s) undoable.1 has' tr'
