-- ===== src/Node/Restarted.antt =====
-- A node that starts again from its store: internal/node/node.go.
use tylium.Prelude.{
  ℕ, ◌^◌, ◌<◌, ◌≡◌, ◌≢◌, inl, inr, refl, sym, ap, ◌∙◌, List, [], ◌∷◌, take, take-append, arith,
  Option-cases,
}
use mathlib.Core.Path.{subst}
use mathlib.Core.List.{append-nil}
use tylium.Prelude.Words.{add64}
use tylium.Bytes.{be, from_be}
use tylium.Bytes.Laws.{from_be-be, length-be}
use tylium.Types.{bytes_to_hash256}
use tylium.Executor.Execute.{Receipt}
use tylium.Executor.Settle.{Registry}
use tylium.Executor.Block.{Block}
use tylium.State.Ops.{StateOps}
use tylium.Store.Keys.{
  Item, height, state_root, final_height, final_root, tx_count, code, block, contract, receipts,
  tx_receipt, tx_index, l1_hash, key_of,
}
use tylium.Store.Ops.{Kv, Found, found, not_found, broken, Read, value, read_u64, read_hash, write}
use tylium.Store.Ops
use tylium.Node.Base.{TrieOps, Outside, Node}
use tylium.Node.Reorg.{
  existing_receipt, stored_count, persist_codes, persist_contracts, index_receipts,
  persist_receipts, persist_block,
}
use tylium.Node.Restart.{store_ops, restored_height, restart, or_zero}

-- A LevelDB without errors: what is written is read, and other keys stay.
pub record Reliable {D : Type 0} (kv : Kv D) : Type 0 where
  pub get-put : (k v : List ℕ) (d : D) → kv.get k (kv.put k v d).1 ≡ found v
  pub get-put_other : (k k' v : List ℕ) (d : D) → k ≢ k' → kv.get k (kv.put k' v d).1 ≡ kv.get k d

-- The first and the third byte of a key.
abbrev first_of : List ℕ → ℕ
first_of [] = 0
first_of (x ∷ xs) = x

abbrev third_of : List ℕ → ℕ
third_of (x ∷ y ∷ z ∷ zs) = z
third_of xs = 0

module _ (o : Outside) {S D : Type 0} (ops : StateOps S) (tries : TrieOps S) (kv : Kv D)
    (reliable : Reliable kv) (contracts : Registry → List (ℕ × ℕ)) where
  module _ (item : Item) (letter : first_of (key_of item) ≡ 109)
      (not_count : third_of (key_of item) ≢ 116) where
    -- A step on the store that leaves the record of the item.
    abbrev Keeps : D → D → Type 0
    Keeps d d' = kv.get (key_of item) d' ≡ kv.get (key_of item) d

    put-other : (k v : List ℕ) (d : D) → first_of k ≢ 109 → Keeps d (kv.put k v d).1
    put-other k v d other =
        reliable.get-put_other (key_of item) k v d (λ e. other (ap first_of (sym e) ∙ letter))

    put-count : (n : ℕ) (d : D) → Keeps d (Ops.put_tx_count kv n d).1
    unfolding key_of
    put-count n d =
        reliable.get-put_other (key_of item) (key_of tx_count) (be 8 n) d
          (λ e. not_count (ap third_of e))

    -- The record of an item whose key starts with another letter.
    write-Keeps :
        (other : Item) (v : List ℕ) (d : D)
        → first_of (key_of other) ≢ 109
        → Keeps d (write kv other v d).1
    write-Keeps other v d apart = put-other (key_of other) v d apart

    index-Keeps :
        (count : ℕ) (rs : List Receipt) (d : D)
        → Keeps d (index_receipts o ops tries (store_ops kv) contracts count rs d).1
    unfolding index_receipts
    index-Keeps count [] d = refl
    index-Keeps count (r ∷ rs) d =
        let d₁ : D = (Ops.put_tx_receipt kv r.txid (o.marshal_receipt r) d).1 in
        let d₂ : D = (Ops.put_tx_index kv count r.txid d₁).1 in
        let first : Keeps d d₁ =
          write-Keeps (tx_receipt r.txid) (o.marshal_receipt r) d
            (unfold key_of in λ e. omega (arith, e)) in
        let second : Keeps d₁ d₂ =
          write-Keeps (tx_index count) (be 32 r.txid) d₁ (unfold key_of in λ e. omega (arith, e)) in
        elim (Option-cases (existing_receipt o ops tries (store_ops kv) contracts r.txid d)) [
          | inl new ↦
              subst (λ (p : ℕ × D). Keeps d p.1)
                {x = index_receipts o ops tries (store_ops kv) contracts (add64 count 1) rs d₂}
                {y = index_receipts o ops tries (store_ops kv) contracts count (r ∷ rs) d}
                (ground (arith, new)) (index-Keeps (add64 count 1) rs d₂ ∙ second ∙ first)
          | inr (e, old) ↦
              subst (λ (p : ℕ × D). Keeps d p.1)
                {x = index_receipts o ops tries (store_ops kv) contracts count rs d₁}
                {y = index_receipts o ops tries (store_ops kv) contracts count (r ∷ rs) d}
                (ground (arith, old)) (index-Keeps count rs d₁ ∙ first)
        ]

    receipts-Keeps :
        (n : ℕ) (rs : List Receipt) (d : D)
        → Keeps d (persist_receipts o ops tries (store_ops kv) contracts n rs d)
    unfolding persist_receipts
    receipts-Keeps n [] d = refl
    receipts-Keeps n (r ∷ rs) d =
        let d₁ : D = (Ops.put_receipts kv n (o.marshal_receipts (r ∷ rs)) d).1 in
        let indexed : ℕ × D =
          index_receipts o ops tries (store_ops kv) contracts
            (stored_count o ops tries (store_ops kv) contracts d₁) (r ∷ rs) d₁ in
        put-count indexed.0 indexed.1
        ∙ index-Keeps (stored_count o ops tries (store_ops kv) contracts d₁) (r ∷ rs) d₁
        ∙ write-Keeps (receipts n) (o.marshal_receipts (r ∷ rs)) d
            (unfold key_of in λ e. omega (arith, e))

    codes-Keeps :
        (codes : List (ℕ × List ℕ)) (d : D)
        → Keeps d (persist_codes o ops tries (store_ops kv) contracts codes d)
    codes-Keeps [] d = refl
    codes-Keeps ((h, bytes) ∷ rest) d =
        codes-Keeps rest (Ops.put_code kv h bytes d).1
        ∙ write-Keeps (code h) bytes d (unfold key_of in λ e. omega (arith, e))

    contracts-Keeps :
        (listed : List (ℕ × ℕ)) (d : D)
        → Keeps d (persist_contracts o ops tries (store_ops kv) contracts listed d)
    contracts-Keeps [] d = refl
    contracts-Keeps ((id, a) ∷ rest) d =
        contracts-Keeps rest (Ops.put_contract kv id a d).1
        ∙ write-Keeps (contract id) (be 20 a) d (unfold key_of in λ e. omega (arith, e))

  module _ (b : Block) (rs : List Receipt) (codes : List (ℕ × List ℕ)) (registry : Registry)
      (d : D) where
    -- The store behind `persist`, before its loops.
    abbrev heads : D
    heads =
        (Ops.put_block kv b.height (o.marshal_block b)
          (Ops.put_l1_hash kv b.height b.l1_block_hash
            (Ops.put_state_root kv b.state_root (Ops.put_height kv b.height d).1).1).1).1

    abbrev written : D
    written = persist_block o ops tries (store_ops kv) contracts b rs codes registry d

    loops-Keeps :
        (item : Item)
        → first_of (key_of item) ≡ 109
        → third_of (key_of item) ≢ 116
        → kv.get (key_of item) written ≡ kv.get (key_of item) heads
    unfolding persist_block
    loops-Keeps item letter not_count =
        let d₁ : D = persist_receipts o ops tries (store_ops kv) contracts b.height rs heads in
        contracts-Keeps item letter not_count (contracts registry)
          (persist_codes o ops tries (store_ops kv) contracts codes d₁)
        ∙ codes-Keeps item letter not_count codes d₁
        ∙ receipts-Keeps item letter not_count b.height rs heads

    -- The two records that stand behind the block's own.
    two-Keeps :
        (item : Item)
        → first_of (key_of item) ≡ 109
        → third_of (key_of item) ≢ 116
        → kv.get (key_of item) written
          ≡ kv.get
              (key_of item)
              (Ops.put_state_root kv b.state_root (Ops.put_height kv b.height d).1).1
    two-Keeps item letter not_count =
        let d₁ : D = (Ops.put_state_root kv b.state_root (Ops.put_height kv b.height d).1).1 in
        loops-Keeps item letter not_count
        ∙ write-Keeps item letter not_count (block b.height) (o.marshal_block b)
            (Ops.put_l1_hash kv b.height b.l1_block_hash d₁).1
            (unfold key_of in λ e. omega (arith, e))
        ∙ write-Keeps item letter not_count (l1_hash b.height) (be 32 b.l1_block_hash) d₁
            (unfold key_of in λ e. omega (arith, e))

    meta-Keeps :
        (item other : Item) (v : List ℕ) (d' : D)
        → third_of (key_of item) ≢ third_of (key_of other)
        → kv.get (key_of item) (write kv other v d').1 ≡ kv.get (key_of item) d'
    meta-Keeps item other v d' apart =
        reliable.get-put_other (key_of item) (key_of other) v d' (λ e. apart (ap third_of e))

    height-written : kv.get (key_of height) written ≡ found (be 8 b.height)
    height-written =
        two-Keeps height (unfold key_of in refl) (unfold key_of in λ e. omega (arith, e))
        ∙ meta-Keeps height state_root (be 32 b.state_root) (Ops.put_height kv b.height d).1
            (unfold key_of in λ e. omega (arith, e))
        ∙ reliable.get-put (key_of height) (be 8 b.height) d

    root-written : kv.get (key_of state_root) written ≡ found (be 32 b.state_root)
    root-written =
        two-Keeps state_root (unfold key_of in refl) (unfold key_of in λ e. omega (arith, e))
        ∙ reliable.get-put (key_of state_root) (be 32 b.state_root) (Ops.put_height kv b.height d).1

    final-written :
        (item : Item)
        → first_of (key_of item) ≡ 109
        → third_of (key_of item) ≡ 102
        → kv.get (key_of item) written ≡ kv.get (key_of item) d
    final-written item letter third =
        two-Keeps item letter (λ e. omega (arith, third, e))
        ∙ meta-Keeps item state_root (be 32 b.state_root) (Ops.put_height kv b.height d).1
            (unfold key_of in λ e. omega (arith, third, e))
        ∙ meta-Keeps item height (be 8 b.height) d (unfold key_of in λ e. omega (arith, third, e))

  read_u64-found :
      (item : Item) (n : ℕ) (d : D)
      → kv.get (key_of item) d ≡ found (be 8 n)
      → n < 256 ^ 8
      → read_u64 kv item d ≡ value n
  unfolding read_u64
  read_u64-found item n d there fits = ground (arith, there, length-be 8 n, from_be-be 8 n fits)

  be-bytes_to_hash256 : (h : ℕ) → h < 256 ^ 32 → bytes_to_hash256 (be 32 h) ≡ h
  unfolding bytes_to_hash256
  be-bytes_to_hash256 h fits =
      ap from_be
        (ap (take 32) (sym (append-nil (be 32 h))) ∙ take-append 32 (be 32 h) [] (length-be 32 h))
      ∙ from_be-be 32 h fits

  read_hash-found :
      (item : Item) (h : ℕ) (d : D)
      → kv.get (key_of item) d ≡ found (be 32 h)
      → h < 256 ^ 32
      → read_hash kv item d ≡ value h
  unfolding read_hash
  read_hash-found item h d there fits = ground (arith, there, be-bytes_to_hash256 h fits)

  same_u64 :
      (item : Item) {d d' : D}
      → kv.get (key_of item) d' ≡ kv.get (key_of item) d
      → read_u64 kv item d' ≡ read_u64 kv item d
  unfolding read_u64
  same_u64 item same = ground (arith, same)

  same_hash :
      (item : Item) {d d' : D}
      → kv.get (key_of item) d' ≡ kv.get (key_of item) d
      → read_hash kv item d' ≡ read_hash kv item d
  unfolding read_hash
  same_hash item same = ground (arith, same)

  -- What a node started from a store has of the block that was persisted last.
  pub record Resumed (b : Block) (before after : Node S D) : Type 0 where
    pub height : after.last_height ≡ b.height
    pub root : after.state_root ≡ b.state_root
    pub final_height : after.finalized_height ≡ before.finalized_height
    pub final_root : after.finalized_root ≡ before.finalized_root

  -- Over a LevelDB without errors, a node that starts from the store behind `persist` of a block has
  -- the height and the state root of the block, if the height is above genesis, and the finalized
  -- height and root that a start from the store before would have had, whatever receipts, code and
  -- contracts were written with the block. The height is a uint64 and the root has 32 bytes.
  pub restart-Resumed :
      (load_code : ℕ → List ℕ → S → S) (genesis : ℕ) (s : S) (b : Block) (rs : List Receipt)
      (codes : List (ℕ × List ℕ)) (registry : Registry) (d : D)
      → genesis < b.height
      → b.height < 256 ^ 8
      → b.state_root < 256 ^ 32
      → Resumed b (restart kv tries load_code genesis s d) (
          restart kv tries load_code genesis s
            (persist_block o ops tries (store_ops kv) contracts b rs codes registry d))
  unfolding restart restored_height
  restart-Resumed load_code genesis s b rs codes registry d above small fits = record {
    height = ground (
      arith,
      above,
      read_u64-found height b.height (written b rs codes registry d)
          (height-written b rs codes registry d) small,
    );
    root = ap or_zero (
        read_hash-found state_root b.state_root (written b rs codes registry d)
          (root-written b rs codes registry d) fits);
    final_height = ap or_zero (
        same_u64 final_height (
          final-written b rs codes registry d final_height (unfold key_of in refl)
            (unfold key_of in refl)));
    final_root = ap or_zero (
        same_hash final_root (
          final-written b rs codes registry d final_root (unfold key_of in refl)
            (unfold key_of in refl)));
  }
