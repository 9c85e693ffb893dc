-- ===== src/Scanner/Block.antt =====
-- internal/scanner/extractor.go and scanner.go: `ExtractFromBlock` over the outputs and the witnesses
-- of a Bitcoin block (pkg/bitcoin/client.go), and `ScanBlock`.
use tylium.Prelude.{
  ℕ, ◌+◌, ◌/◌, ◌^◌, ◌%◌, Option, none, some, List, [], ◌∷◌, ◌++◌, ◌==◌, ltb, length, if◌then◌else◌,
}
use tylium.Types.{Transaction, Checkpoint}
use tylium.Scanner.Extractor.{scan_for_magic, Extracted, process_payloads}

pub record TxOutput : Type 0 where
  pub script : List ℕ
  pub value : ℕ

-- A transaction; an input is the items of its witness.
pub record BtcTx : Type 0 where
  pub txid : ℕ
  pub inputs : List (List (List ℕ))
  pub outputs : List TxOutput

pub record BtcBlock : Type 0 where
  pub height : ℕ
  pub hash : ℕ
  pub prev_hash : ℕ
  pub txs : List BtcTx

pub record ScanResult : Type 0 where
  pub l1_height : ℕ
  pub l1_block_hash : ℕ
  pub l1_prev_hash : ℕ
  pub payloads : List Transaction
  pub checkpoints : List Checkpoint

abbrev pub max_witness_size : ℕ
max_witness_size = 10000000

-- `btcTxNonce`: the first eight of the 32 bytes.
unfoldable pub btc_tx_nonce : ℕ → ℕ
btc_tx_nonce txid = txid / 256 ^ 24 % 256 ^ 8

abbrev total_size : List (List ℕ) → ℕ
total_size [] = 0
total_size (item ∷ items) = length item + total_size items

abbrev combined : List (List ℕ) → List ℕ
combined [] = []
combined (item ∷ items) = item ++ combined items

module _ (index : List ℕ → Option ℕ) where
  -- An output whose script starts with OP_RETURN (0x6a) and goes on.
  unfoldable pub scan_output : ℕ → TxOutput → Extracted → Extracted
  scan_output l1_nonce output x = elim output.script [
    | [] ↦ x
    | opcode ∷ [] ↦ x
    | opcode ∷ (b ∷ bs) ↦
        if opcode == 106
        then process_payloads output.value l1_nonce (scan_for_magic index (b ∷ bs)) x
        else x
  ]

  unfoldable pub scan_outputs : ℕ → List TxOutput → Extracted → Extracted
  unfolding scan_output
  scan_outputs l1_nonce [] x = x
  scan_outputs l1_nonce (o ∷ os) x = scan_outputs l1_nonce os (scan_output l1_nonce o x)

  -- The items of one witness, put together.
  unfoldable pub scan_witness : ℕ → List (List ℕ) → Extracted → Extracted
  scan_witness l1_nonce witness x =
      if ltb max_witness_size (total_size witness)
      then x
      else process_payloads 0 l1_nonce (scan_for_magic index (combined witness)) x

  unfoldable pub scan_witnesses : ℕ → List (List (List ℕ)) → Extracted → Extracted
  unfolding scan_witness
  scan_witnesses l1_nonce [] x = x
  scan_witnesses l1_nonce (w ∷ ws) x = scan_witnesses l1_nonce ws (scan_witness l1_nonce w x)

  unfoldable pub scan_txs : List BtcTx → Extracted → Extracted
  unfolding btc_tx_nonce scan_outputs scan_witnesses
  scan_txs [] x = x
  scan_txs (tx ∷ txs) x =
      let l1_nonce = btc_tx_nonce tx.txid in
      scan_txs txs (scan_witnesses l1_nonce tx.inputs (scan_outputs l1_nonce tx.outputs x))

  unfoldable pub extract_from_block : BtcBlock → Extracted
  unfolding scan_txs
  extract_from_block block = scan_txs block.txs (record { txs = []; checkpoints = [] })

  -- What `ScanBlock` and `Subscribe` make of a block.
  unfoldable pub scan_result : BtcBlock → ScanResult
  unfolding extract_from_block
  scan_result block =
      let x = extract_from_block block in
      record {
        l1_height = block.height;
        l1_block_hash = block.hash;
        l1_prev_hash = block.prev_hash;
        payloads = x.txs;
        checkpoints = x.checkpoints;
      }

  -- The Bitcoin client's `GetBlockByHeight` is a parameter; `none` is its error.
  unfoldable pub scan_block : (ℕ → Option BtcBlock) → ℕ → Option ScanResult
  unfolding scan_result
  scan_block get_block_by_height height = elim (get_block_by_height height) [
    | none ↦ none
    | some block ↦ some (scan_result block)
  ]
