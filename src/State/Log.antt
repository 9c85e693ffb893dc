-- ===== src/State/Log.antt =====
-- A run of writes keeps a log by which it can be taken back.
use tylium.Prelude.{
  ℕ, ◌^◌, ◌<◌, ◌≡◌, refl, sym, ap, ◌∙◌, ◌⊎◌, inl, inr, Option, none, some, List, [], ◌∷◌, ◌++◌,
  ◌==◌, All, arith, ==→eq, ==_self, Bool-cases,
}
use mathlib.Core.Path.{fun_ext, subst}
use tylium.Bytes.{be}
use tylium.Types.{Account}
use tylium.Encoding.Account.{encode_account}
use tylium.Merkle.Tree.{Tree, NodeStore, get, root_hash}
use tylium.Merkle.Map.{Map, update, Holds, empty-Holds}
use tylium.State.Ops.{or_new}
use tylium.State.Ledger.{set_map}
use tylium.State.Journal.{JournalEntry, account_entry, storage_entry, Journal, record_entry}
use tylium.State.Db
use tylium.State.Maps.{put_back-Holds, got-get, Maps, put_slot, put_slot-restored, IsCached}
use tylium.State.Undo.{
  put_account, put_account-restored, undo_map, undo_maps, IsUndoable, set_map-Holds, cached_trie,
  fresh_trie-new, fresh-loads,
}

module _ (sha256 : List ℕ → ℕ) (store_factory : ℕ → NodeStore)
    (sha_fits : (b : List ℕ) → sha256 b < 2 ^ 256) where
  -- The trie of an account is in memory, or there is nothing to load for it.
  abbrev pub IsLoaded : ℕ → Db.StateDb → Type 0
  IsLoaded a s =
      IsCached a s
      ⊎ ((s.storage_tries a ≡ none)
          × ((or_new (Db.get_account sha256 store_factory a s)).storage_root ≡ 0))

  -- Writes and reads between a snapshot and a revert.
  pub data Runs (s₀ : Db.StateDb) : Db.StateDb → Type 0 where
    start : Runs s₀ s₀
    account_written :
        {s : Db.StateDb}
        → Runs s₀ s
        → (a : ℕ) (x : Account) → Runs s₀ (Db.set_account sha256 store_factory a x s)
    code_written :
        {s : Db.StateDb}
        → Runs s₀ s
        → (a : ℕ) (code : List ℕ) → Runs s₀ (Db.set_code sha256 store_factory a code s)
    slot_read :
        {s : Db.StateDb}
        → Runs s₀ s
        → (a k : ℕ) → IsLoaded a s
        → Runs s₀ (Db.get_storage sha256 store_factory a k s).1
    slot_written :
        {s : Db.StateDb}
        → Runs s₀ s
        → (a k v : ℕ) → IsLoaded a s
        → k < 2 ^ 256
        → Runs s₀ (Db.set_storage sha256 store_factory a k v s)

  -- The tries hold the maps, and a trie that is not in memory would be an empty one.
  pub record Represents (m : Maps) (s : Db.StateDb) : Type 0 where
    pub global : Holds s.global_trie m.accounts
    pub cached : (a : ℕ) (t : Tree) → s.storage_tries a ≡ some t → Holds t (m.slots a)
    pub uncached : (a : ℕ) → s.storage_tries a ≡ none → m.slots a ≡ (λ k. none)

  -- What holds along a run from a state with the maps `m₀` and the journal `j₀`.
  pub record Logged (m₀ : Maps) (j₀ : Journal) (s : Db.StateDb) : Type 0 where
    pub maps : Maps
    pub entries : List JournalEntry
    pub represents : Represents maps s
    pub undone : undo_maps sha256 store_factory sha_fits entries maps ≡ m₀
    pub logged : s.journal ≡ record { entries = entries ++ j₀.entries; snapshots = j₀.snapshots }
    pub undoable : All (IsUndoable sha256 store_factory sha_fits (λ a. IsCached a s)) entries

  module _ (m₀ : Maps) (j₀ : Journal) (s : Db.StateDb) (l : Logged m₀ j₀ s) where
    set_account-Logged :
        (a : ℕ) (x : Account) → Logged m₀ j₀ (Db.set_account sha256 store_factory a x s)
    unfolding Db.set_account record_entry undo_maps undo_map
    set_account-Logged a x =
        let key : ℕ = sha256 (be 20 a) in
        let old = Db.got (get s.global_trie key) in
        record {
          maps = put_account sha256 store_factory sha_fits a (some (encode_account x)) l.maps;
          entries = account_entry a old ∷ l.entries;
          represents = record {
            global =
                put_back-Holds s.global_trie l.maps.accounts key (some (encode_account x))
                  (sha_fits (be 20 a)) l.represents.global;
            cached = l.represents.cached;
            uncached = l.represents.uncached;
          };
          undone =
              ap (undo_maps sha256 store_factory sha_fits l.entries) (
                ap
                  (λ o.
                    put_account sha256 store_factory sha_fits a o (
                      put_account sha256 store_factory sha_fits a (some (encode_account x)) l.maps))
                  (got-get s.global_trie l.maps.accounts key (sha_fits (be 20 a))
                    l.represents.global)
                ∙ put_account-restored sha256 store_factory sha_fits a (some (encode_account x))
                    l.maps)
              ∙ l.undone;
          logged = ap (λ j. record_entry (account_entry a old) j) l.logged;
          undoable = (tt, l.undoable);
        }

    set_codes-Logged : (f : ℕ → Option (List ℕ)) → Logged m₀ j₀ (record s { codes = f })
    set_codes-Logged f = record {
      maps = l.maps;
      entries = l.entries;
      represents = record {
        global = l.represents.global;
        cached = l.represents.cached;
        uncached = l.represents.uncached;
      };
      undone = l.undone;
      logged = l.logged;
      undoable = l.undoable;
    }

    IsUndoable-mono :
        (s' : Db.StateDb) (es : List JournalEntry)
        → ((a : ℕ) → IsCached a s → IsCached a s')
        → All (IsUndoable sha256 store_factory sha_fits (λ a. IsCached a s)) es
        → All (IsUndoable sha256 store_factory sha_fits (λ a. IsCached a s')) es
    IsUndoable-mono s' [] f h = tt
    IsUndoable-mono s' (account_entry a old ∷ es) f h = (tt, IsUndoable-mono s' es f h.1)
    IsUndoable-mono s' (storage_entry a k old ∷ es) f h =
        ((f a h.0.0, h.0.1), IsUndoable-mono s' es f h.1)

    kept-IsCached :
        (a : ℕ) (t : Tree) (s' : Db.StateDb)
        → s'.storage_tries ≡ set_map a (some t) s.storage_tries
        → (b : ℕ) → IsCached b s
        → IsCached b s'
    kept-IsCached a t s' same b (u, there) = elim (Bool-cases (a == b)) [
      | inl e ↦ (t, ap (λ (f : ℕ → Option Tree). f b) same ∙ ground arith)
      | inr e ↦ (u, ap (λ (f : ℕ → Option Tree). f b) same ∙ ground arith)
    ]

    -- The state with a trie put into the cache that holds what the maps say.
    cache-Represents :
        (a : ℕ) (t : Tree) (f : Map)
        → Holds t f
        → (b : ℕ) → set_map a (some t) s.storage_tries b ≡ none
        → set_map a f l.maps.slots b ≡ (λ k. none)
    cache-Represents a t f h b e = elim (Bool-cases (a == b)) [
      | inl same ↦ absurd (ground arith)
      | inr other ↦
          fun_ext
            λ k. ground (arith, ap (λ (g : Map). g k) (l.represents.uncached b (ground arith)))
    ]

    record Loaded (a : ℕ) : Type 0 where
      pub trie : Tree
      pub after : Db.StateDb
      pub loads : Db.get_storage_trie sha256 store_factory a s ≡ (trie, after)
      pub there : after.storage_tries a ≡ some trie
      pub log : Logged m₀ j₀ after

    set_map-same : (a b : ℕ) → set_map a (l.maps.slots a) l.maps.slots b ≡ l.maps.slots b
    set_map-same a b = elim (Bool-cases (a == b)) [
      | inl e ↦ rw e (ap l.maps.slots (==→eq a b e))
      | inr e ↦ rw e refl
    ]

    fresh-Loaded :
        (a : ℕ)
        → s.storage_tries a ≡ none
        → (or_new (Db.get_account sha256 store_factory a s)).storage_root ≡ 0
        → Loaded a
    fresh-Loaded a nothing rootless =
        let t : Tree = Db.new_tree (store_factory a) in
        let after : Db.StateDb = record s { storage_tries = set_map a (some t) s.storage_tries } in
        let held : Holds t (l.maps.slots a) =
          subst (λ f. Holds t f) (sym (l.represents.uncached a nothing))
            (empty-Holds (store_factory a)) in
        record {
          trie = t;
          after = after;
          loads =
              fresh-loads sha256 store_factory sha_fits s a t nothing
                (fresh_trie-new sha256 store_factory sha_fits s a rootless);
          there = ground (arith, ==_self a);
          log = record {
            maps = l.maps;
            entries = l.entries;
            represents = record {
              global = l.represents.global;
              cached = λ b u e.
                  subst (λ f. Holds u f) (set_map-same a b)
                    (set_map-Holds sha256 store_factory sha_fits (λ c. Unit) l.maps s a t
                      (l.maps.slots a) l.represents.cached held b u e);
              uncached =
                  λ b e. sym (set_map-same a b) ∙ cache-Represents a t (l.maps.slots a) held b e;
            };
            undone = l.undone;
            logged = l.logged;
            undoable = IsUndoable-mono after l.entries (kept-IsCached a t after refl) l.undoable;
          };
        }

    load-Loaded : (a : ℕ) → IsLoaded a s → Loaded a
    load-Loaded a (inl (t, there)) = record {
      trie = t;
      after = s;
      loads = cached_trie sha256 store_factory sha_fits (λ c. Unit) a s t there;
      there = there;
      log = l;
    }
    load-Loaded a (inr (nothing, rootless)) = fresh-Loaded a nothing rootless

    -- A write to the trie of an account that is in the cache, with its entry in the journal.
    write-Logged :
        (a k : ℕ) (o : Option (List ℕ)) (t : Tree)
        → k < 2 ^ 256
        → s.storage_tries a ≡ some t
        → Logged m₀ j₀ (record s {
          journal = record_entry (storage_entry a k (Db.got (get t k))) s.journal;
          storage_tries = set_map a (some (Db.put_back k o t)) s.storage_tries;
        })
    unfolding record_entry undo_maps undo_map
    write-Logged a k o t fits there =
        let old = Db.got (get t k) in
        let t' : Tree = Db.put_back k o t in
        let held = l.represents.cached a t there in
        let held' : Holds t' (update (l.maps.slots a) k o) =
          put_back-Holds t (l.maps.slots a) k o fits held in
        let after : Db.StateDb = record s {
          journal = record_entry (storage_entry a k old) s.journal;
          storage_tries = set_map a (some t') s.storage_tries;
        } in
        record {
          maps = put_slot a k o l.maps;
          entries = storage_entry a k old ∷ l.entries;
          represents = record {
            global = l.represents.global;
            cached =
                set_map-Holds sha256 store_factory sha_fits (λ c. Unit) l.maps s a t'
                  (update (l.maps.slots a) k o) l.represents.cached held';
            uncached = cache-Represents a t' (update (l.maps.slots a) k o) held';
          };
          undone =
              ap (undo_maps sha256 store_factory sha_fits l.entries) (
                ap (λ x. put_slot a k x (put_slot a k o l.maps))
                  (got-get t (l.maps.slots a) k fits held)
                ∙ put_slot-restored a k o l.maps)
              ∙ l.undone;
          logged = ap (λ j. record_entry (storage_entry a k old) j) l.logged;
          undoable = (
            ((t', ground (arith, ==_self a)), fits),
            IsUndoable-mono after l.entries (kept-IsCached a t' after refl) l.undoable,
          );
        }

  module _ (m₀ : Maps) (j₀ : Journal) where
    set_storage-Logged :
        (s : Db.StateDb) (a k v : ℕ)
        → Logged m₀ j₀ s
        → IsLoaded a s
        → k < 2 ^ 256
        → Logged m₀ j₀ (Db.set_storage sha256 store_factory a k v s)
    unfolding Db.set_storage
    set_storage-Logged s a k v l loaded fits =
        let ld = load-Loaded m₀ j₀ s l a loaded in
        subst (λ r. Logged m₀ j₀ (stored r)) (sym ld.loads)
          (set_account-Logged m₀ j₀ (written (ld.trie, ld.after))
            (write-Logged m₀ j₀ ld.after ld.log a k (Db.stored_bytes sha256 store_factory v) ld.trie
              fits ld.there)
            a (account (ld.trie, ld.after)))
      where
        written : Tree × Db.StateDb → Db.StateDb
        written (t, s₁) = record s₁ {
          journal = record_entry (storage_entry a k (Db.got (get t k))) s₁.journal;
          storage_tries =
              set_map a (some (Db.put_back k (Db.stored_bytes sha256 store_factory v) t))
                s₁.storage_tries;
        }

        account : Tree × Db.StateDb → Account
        account (t, s₁) =
            let acct = or_new (Db.get_account sha256 store_factory a (written (t, s₁))) in
            record acct {
              storage_root =
                  root_hash sha256 (Db.put_back k (Db.stored_bytes sha256 store_factory v) t);
            }

        stored : Tree × Db.StateDb → Db.StateDb
        stored r = Db.set_account sha256 store_factory a (account r) (written r)

    get_storage-Logged :
        (s : Db.StateDb) (a k : ℕ)
        → Logged m₀ j₀ s
        → IsLoaded a s
        → Logged m₀ j₀ (Db.get_storage sha256 store_factory a k s).1
    unfolding Db.get_storage
    get_storage-Logged s a k l loaded =
        let ld = load-Loaded m₀ j₀ s l a loaded in
        subst (λ r. Logged m₀ j₀ r.1) (sym ld.loads) ld.log

    set_code-Logged :
        (s : Db.StateDb) (a : ℕ) (code : List ℕ)
        → Logged m₀ j₀ s
        → Logged m₀ j₀ (Db.set_code sha256 store_factory a code s)
    unfolding Db.set_code
    set_code-Logged s a code l =
        let s₁ : Db.StateDb = record s { codes = set_map (sha256 code) (some code) s.codes } in
        set_account-Logged m₀ j₀ s₁ (set_codes-Logged m₀ j₀ s l s₁.codes) a (
          let acct = or_new (Db.get_account sha256 store_factory a s₁) in
          record acct { code_hash = sha256 code })

    pub Runs-Logged : {s₀ s : Db.StateDb} → Logged m₀ j₀ s₀ → Runs s₀ s → Logged m₀ j₀ s
    Runs-Logged l start = l
    Runs-Logged l (account_written {s} r a x) = set_account-Logged m₀ j₀ s (Runs-Logged l r) a x
    Runs-Logged l (code_written {s} r a code) = set_code-Logged s a code (Runs-Logged l r)
    Runs-Logged l (slot_read {s} r a k loaded) = get_storage-Logged s a k (Runs-Logged l r) loaded
    Runs-Logged l (slot_written {s} r a k v loaded fits) =
        set_storage-Logged s a k v (Runs-Logged l r) loaded fits
