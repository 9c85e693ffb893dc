-- ===== src/Rpc/Chain.antt =====
-- internal/rpc/handler.go: the methods that read the store.
use tylium.Prelude.{ℕ, Bool, ◌&&◌, not, Option, none, some, List, [], ◌∷◌, ltb}
use tylium.Prelude.Words.{ℤ}
use tylium.Store.Ops.{Kv, value, get_block, get_receipts, get_tx_receipt, list_recent_txs}
use tylium.Rpc.{
  Hex, NodeInfo, StoredReceipt, TxEntry, Result, raw, receipt, recent, null, no_receipts, Answer,
  ok, err, store_error,
}
use tylium.Rpc.Params.{parse_txid, one_arg, offset_of, limit_of, capped}
use tylium.Rpc.State.{on_ok}

-- `unmarshal` is json.Unmarshal into a stored receipt, which is the zero value where it fails.
module _ (hex : Hex) (unmarshal : List ℕ → StoredReceipt) {D : Type 0} (db : Kv D)
    (info : NodeInfo) where
  unfoldable pub get_block_json : Option (List ℕ) → D → Answer Result
  unfolding one_arg
  get_block_json params d = on_ok (one_arg params) λ height. elim (get_block db height d) [
    | value none ↦ ok null
    | value (some bytes) ↦ ok (raw bytes)
    | _ ↦ err store_error
  ]

  unfoldable pub get_receipts_json : Option (List ℕ) → D → Answer Result
  unfolding one_arg
  get_receipts_json params d = on_ok (one_arg params) λ height. elim (get_receipts db height d) [
    | value none ↦ ok no_receipts
    | value (some bytes) ↦ ok (raw bytes)
    | _ ↦ err store_error
  ]

  -- `FinalizedHeight() >= r.Height && r.Height > 0`
  abbrev pub is_final : StoredReceipt → Bool
  is_final r = not (ltb info.finalized_height r.height) && ltb 0 r.height

  unfoldable pub entry_of : List ℕ → TxEntry
  entry_of bytes =
      let r = unmarshal bytes in
      record {
        txid = hex.encode_to_string r.txid;
        height = r.height;
        success = r.success;
        gas_used = r.gas_used;
        error = r.error;
        finalized = is_final r;
      }

  unfoldable pub get_receipt : Option (List (List ℕ)) → D → Answer Result
  unfolding one_arg parse_txid entry_of
  get_receipt params d = on_ok (one_arg params) λ arg. on_ok (parse_txid hex arg) λ txid.
      elim (get_tx_receipt db txid d) [
        | value none ↦ ok null
        | value (some bytes) ↦ ok (receipt (entry_of bytes))
        | _ ↦ err store_error
      ]

  -- A receipt that is missing or cannot be read is passed over.
  unfoldable pub entries : List ℕ → D → List TxEntry
  unfolding entry_of
  entries [] d = []
  entries (txid ∷ txids) d =
      let rest = entries txids d in
      elim (get_tx_receipt db txid d) [ value (some bytes) ↦ entry_of bytes ∷ rest | _ ↦ rest ]

  unfoldable pub recent_txs : Option (List ℤ) → D → Answer Result
  unfolding offset_of limit_of capped entries list_recent_txs
  recent_txs params d = elim (list_recent_txs db (offset_of params) (capped (limit_of params)) d) [
    | value txids ↦ ok (recent (entries txids d))
    | _ ↦ err store_error
  ]
