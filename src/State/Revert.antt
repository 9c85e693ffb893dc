-- ===== src/State/Revert.antt =====
-- A revert to a snapshot: the accounts, the slots, the root and the journal are those of the snapshot.
use tylium.Prelude.{
  ℕ, suc, ◌-◌, ◌^◌, ◌<◌, ◌≡◌, refl, sym, ap, ◌∙◌, ◌⊎◌, inl, inr, none, some, List, [], ◌∷◌, ◌++◌,
  ◌==◌, leb, false, get_elem?, length, take, drop, arith, ==→eq, Option-cases, Bool-cases,
  length-append, take-append, drop-append,
}
use mathlib.Core.Path.{subst}
use tylium.Bytes.{be}
use tylium.Merkle.Tree.{Tree, NodeStore, get}
use tylium.Merkle.Map.{Map, Holds, empty-Holds, Holds-root_hash}
use tylium.State.Ops.{or_new}
use tylium.State.Journal.{JournalEntry, Journal, take_position, position, entries_from, truncated}
use tylium.State.Db
use tylium.State.Maps.{got-get, Maps, IsCached}
use tylium.State.Undo.{
  undo_maps, Tracks, HasCached, undo_all-Tracks, cached_trie, fresh_trie-new, fresh-loads,
}
use tylium.State.Log.{IsLoaded, Runs, Represents, Logged, Runs-Logged}

module _ (sha256 : List ℕ → ℕ) (store_factory : ℕ → NodeStore)
    (sha_fits : (b : List ℕ) → sha256 b < 2 ^ 256) where
  -- A trie that is in the cache stays there.
  get_storage_trie-IsCached :
      (a b : ℕ) (s : Db.StateDb)
      → IsCached b s
      → IsCached b (Db.get_storage_trie sha256 store_factory a s).1
  unfolding Db.get_storage_trie
  get_storage_trie-IsCached a b s (t, there) = elim (Option-cases (s.storage_tries a)) [
    | inr (u, here) ↦ (t, ground arith)
    | inl nothing ↦ (t, ground (arith, ==→eq a b))
  ]

  set_storage-IsCached :
      (a b k v : ℕ) (s : Db.StateDb)
      → IsCached b s
      → IsCached b (Db.set_storage sha256 store_factory a k v s)
  unfolding Db.set_storage Db.set_account
  set_storage-IsCached a b k v s c =
      let (t, there) = get_storage_trie-IsCached a b s c in
      elim (Bool-cases (a == b)) [
        | inl same ↦ (
          Db.put_back k (Db.stored_bytes sha256 store_factory v)
              (Db.get_storage_trie sha256 store_factory a s).0,
          ground arith,
        )
        | inr other ↦ (t, ground arith)
      ]

  Runs-IsCached :
      {s₀ s : Db.StateDb} (b : ℕ)
      → Runs sha256 store_factory sha_fits s₀ s
      → IsCached b s₀
      → IsCached b s
  unfolding Db.set_account Db.set_code Db.get_storage
  Runs-IsCached b Runs.start c = c
  Runs-IsCached b (Runs.account_written r a x) c = Runs-IsCached b r c
  Runs-IsCached b (Runs.code_written r a code) c = Runs-IsCached b r c
  Runs-IsCached b (Runs.slot_read {s} r a k loaded) c =
      get_storage_trie-IsCached a b s (Runs-IsCached b r c)
  Runs-IsCached b (Runs.slot_written {s} r a k v loaded fits) c =
      set_storage-IsCached a b k v s (Runs-IsCached b r c)

  -- `RevertTo` on a journal that has grown by `es` since the snapshot.
  grown : Journal → List JournalEntry → Journal
  grown j es = record { entries = es ++ j.entries; snapshots = length j.entries ∷ j.snapshots }

  grown-position :
      (j : Journal) (es : List JournalEntry)
      → position (length j.snapshots) (grown j es) ≡ some (length j.entries)
  unfolding grown
  grown-position j es =
      ap (get_elem? (length j.entries ∷ j.snapshots))
        {x = suc (length j.snapshots) - suc (length j.snapshots)} {y = 0} (omega arith)

  grown-stale :
      (j : Journal) (es : List JournalEntry)
      → leb (length (grown j es).snapshots) (length j.snapshots) ≡ false
  unfolding grown
  grown-stale j es = ground arith

  grown-entries_from :
      (j : Journal) (es : List JournalEntry) → entries_from (length j.entries) (grown j es) ≡ es
  unfolding grown
  grown-entries_from j es =
      ap (λ n. take n (es ++ j.entries)) {x = length (es ++ j.entries) - length j.entries}
        {y = length es} (omega (arith, length-append {0} es j.entries))
      ∙ take-append (length es) es j.entries refl

  grown-truncated :
      (j : Journal) (es : List JournalEntry)
      → truncated (length j.snapshots) (length j.entries) (grown j es) ≡ j
  unfolding grown truncated
  grown-truncated j es i = record {
    entries =
        (ap (λ n. drop n (es ++ j.entries)) {x = length (es ++ j.entries) - length j.entries}
              {y = length es} (omega (arith, length-append {0} es j.entries))
            ∙ drop-append (length es) es j.entries refl)
          i;
    snapshots =
        ap (λ n. drop n (length j.entries ∷ j.snapshots))
          {x = suc (length j.snapshots) - length j.snapshots} {y = 1} (omega arith) i;
  }

  revert_to-grown :
      (s : Db.StateDb) (j : Journal) (es : List JournalEntry)
      → s.journal ≡ grown j es
      → Db.revert_to sha256 store_factory (length j.snapshots) s
        ≡ record (Db.undo_all sha256 store_factory es s) { journal = j }
  unfolding Db.revert_to
  revert_to-grown s j es log = ground (
    arith,
    stale,
    ap (position (length j.snapshots)) log ∙ grown-position j es,
    ap (entries_from (length j.entries)) log ∙ grown-entries_from j es,
    ap (truncated (length j.snapshots) (length j.entries)) log ∙ grown-truncated j es,
  )
    where
      stale : leb (length s.journal.snapshots) (length j.snapshots) ≡ false
      stale =
          ap (λ (x : Journal). leb (length x.snapshots) (length j.snapshots)) log ∙ grown-stale j es

  pub record Restored (s s' : Db.StateDb) : Type 0 where
    pub root : Db.root sha256 store_factory s' ≡ Db.root sha256 store_factory s
    pub journal : s'.journal ≡ s.journal
    pub accounts :
        (a : ℕ) → Db.get_account sha256 store_factory a s' ≡ Db.get_account sha256 store_factory a s
    pub slots :
        (a k : ℕ)
        → IsLoaded sha256 store_factory sha_fits a s
        → k < 2 ^ 256
        → (Db.get_storage sha256 store_factory a k s').0
          ≡ (Db.get_storage sha256 store_factory a k s).0

  -- A state whose tries hold the maps, and with nothing in the journal since the snapshot.
  snapshot-Logged :
      (m : Maps) (s : Db.StateDb)
      → Represents sha256 store_factory sha_fits m s
      → Logged sha256 store_factory sha_fits m
          (Db.snapshot sha256 store_factory s).1.journal
          (Db.snapshot sha256 store_factory s).1
  unfolding Db.snapshot undo_maps
  snapshot-Logged m s r = record {
    maps = m;
    entries = [];
    represents = record { global = r.global; cached = r.cached; uncached = r.uncached };
    undone = refl;
    logged = refl;
    undoable = tt;
  }

  cached-value :
      (s : Db.StateDb) (a k : ℕ) (t : Tree) (f : Map)
      → s.storage_tries a ≡ some t
      → Holds t f
      → k < 2 ^ 256
      → (Db.get_storage sha256 store_factory a k s).0 ≡ Db.slot_value sha256 store_factory (f k)
  unfolding Db.get_storage
  cached-value s a k t f there h fits =
      ap (λ r. Db.slot_value sha256 store_factory (Db.got (get r.0 k)))
        (cached_trie sha256 store_factory sha_fits (λ c. Unit) a s t there)
      ∙ ap (Db.slot_value sha256 store_factory) (got-get t f k fits h)

  fresh-value :
      (s : Db.StateDb) (a k : ℕ)
      → s.storage_tries a ≡ none
      → (or_new (Db.get_account sha256 store_factory a s)).storage_root ≡ 0
      → k < 2 ^ 256
      → (Db.get_storage sha256 store_factory a k s).0 ≡ 0
  unfolding Db.get_storage
  fresh-value s a k nothing rootless fits =
      ap (λ r. Db.slot_value sha256 store_factory (Db.got (get r.0 k)))
        (fresh-loads sha256 store_factory sha_fits s a (Db.new_tree (store_factory a)) nothing
          (fresh_trie-new sha256 store_factory sha_fits s a rootless))
      ∙ ap (Db.slot_value sha256 store_factory) (
          got-get (Db.new_tree (store_factory a)) (λ j. none) k fits
            (empty-Holds (store_factory a)))

  account-value :
      (s : Db.StateDb) (a : ℕ) (m : Map)
      → Holds s.global_trie m
      → Db.get_account sha256 store_factory a s
        ≡ Db.decoded sha256 store_factory (m (sha256 (be 20 a)))
  unfolding Db.get_account
  account-value s a m h =
      ap (Db.decoded sha256 store_factory)
        (got-get s.global_trie m (sha256 (be 20 a)) (sha_fits (be 20 a)) h)

  module _ (m : Maps) (s s' : Db.StateDb) (before : Represents sha256 store_factory sha_fits m s)
      (after : Tracks sha256 store_factory sha_fits m s')
      (kept : (a : ℕ) → IsCached a s → IsCached a s') where
    same_account :
        (a : ℕ) → Db.get_account sha256 store_factory a s' ≡ Db.get_account sha256 store_factory a s
    same_account a =
        account-value s' a m.accounts after.global
        ∙ sym (account-value s a m.accounts before.global)

    same_slot :
        (a k : ℕ)
        → IsLoaded sha256 store_factory sha_fits a s
        → k < 2 ^ 256
        → (Db.get_storage sha256 store_factory a k s').0
          ≡ (Db.get_storage sha256 store_factory a k s).0
    same_slot a k (inl (t, there)) fits =
        let (t', there') = kept a (t, there) in
        cached-value s' a k t' (m.slots a) there' (after.cached a t' there') fits
        ∙ sym (cached-value s a k t (m.slots a) there (before.cached a t there) fits)
    same_slot a k (inr (nothing, rootless)) fits =
        slot_now (Option-cases (s'.storage_tries a)) ∙ sym (fresh-value s a k nothing rootless fits)
      where
        slot_now :
            (s'.storage_tries a ≡ none) ⊎ ((t : Tree) × (s'.storage_tries a ≡ some t))
            → (Db.get_storage sha256 store_factory a k s').0 ≡ 0
        slot_now (inl none_now) =
            fresh-value s' a k none_now
              (ap (λ o. (or_new o).storage_root) (same_account a) ∙ rootless) fits
        slot_now (inr (t, here)) =
            cached-value s' a k t (m.slots a) here (after.cached a t here) fits
            ∙ ap (λ (f : Map). Db.slot_value sha256 store_factory (f k)) (before.uncached a nothing)

    same_root : Db.root sha256 store_factory s' ≡ Db.root sha256 store_factory s
    unfolding Db.root
    same_root =
        Holds-root_hash sha256 s'.global_trie s.global_trie m.accounts after.global before.global

  -- On a database whose tries are in memory, reverting to a snapshot after any run of account, code
  -- and slot writes gives back the root, the journal, every account and every slot that the
  -- database had when the snapshot was taken. No write of the run loads a trie from the store.
  pub revert_to-Restored :
      (m : Maps) (s s' : Db.StateDb)
      → Represents sha256 store_factory sha_fits m s
      → Runs sha256 store_factory sha_fits (Db.snapshot sha256 store_factory s).1 s'
      → Restored s (Db.revert_to sha256 store_factory (Db.snapshot sha256 store_factory s).0 s')
  unfolding Db.snapshot take_position grown
  revert_to-Restored m s s' before r =
      subst (λ x. Restored s x) (sym (revert_to-grown s' s.journal log.entries log.logged))
        (record {
          root = same_root m s undone before tracked kept;
          journal = refl;
          accounts = same_account m s undone before tracked kept;
          slots = same_slot m s undone before tracked kept;
        })
    where
      log : Logged sha256 store_factory sha_fits m (Db.snapshot sha256 store_factory s).1.journal s'
      log =
          Runs-Logged sha256 store_factory sha_fits m (Db.snapshot sha256 store_factory s).1.journal
            (snapshot-Logged m s before) r

      undone : Db.StateDb
      undone = record (Db.undo_all sha256 store_factory log.entries s') { journal = s.journal }

      done :
          Tracks sha256 store_factory sha_fits
            (undo_maps sha256 store_factory sha_fits log.entries log.maps)
            (Db.undo_all sha256 store_factory log.entries s')
          × HasCached sha256 store_factory sha_fits
              (λ a. IsCached a s')
              (Db.undo_all sha256 store_factory log.entries s')
      done =
          undo_all-Tracks sha256 store_factory sha_fits (λ a. IsCached a s') log.entries log.maps s'
            log.undoable (λ a c. c)
            (record { global = log.represents.global; cached = log.represents.cached })

      tracked : Tracks sha256 store_factory sha_fits m undone
      tracked =
          subst (λ x. Tracks sha256 store_factory sha_fits x undone) log.undone
            (record { global = done.0.global; cached = done.0.cached })

      kept : (a : ℕ) → IsCached a s → IsCached a undone
      kept a c = done.1 a (Runs-IsCached a r c)
