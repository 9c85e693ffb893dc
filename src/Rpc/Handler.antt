-- ===== src/Rpc/Handler.antt =====
-- internal/rpc/handler.go: the dispatch of a call.
use tylium.Prelude.{ℕ, Option, List}
use tylium.Prelude.Words.{ℤ}
use tylium.Store.Ops.{Kv}
use tylium.Rpc.{
  Hex, NodeInfo, StateReads, StoredReceipt, Result, block_height, state_root, finalized, Answer, ok,
  err, unknown_method,
}
use tylium.Rpc.State.{hash_hex, get_account, get_balance, get_storage, get_code}
use tylium.Rpc.Chain.{get_block_json, get_receipts_json, get_receipt, recent_txs}

-- The method of a call, with its parameters as JSON decodes them for the method.
pub data Call : Type 0 where
  tyl_block_height tyl_state_root tyl_finalized_height other_method : Call
  tyl_get_account tyl_get_balance tyl_get_storage tyl_get_code tyl_get_receipt :
      Option (List (List ℕ)) → Call
  tyl_get_block tyl_get_receipts : Option (List ℕ) → Call
  tyl_recent_txs : Option (List ℤ) → Call

module _ (hex : Hex) (unmarshal : List ℕ → StoredReceipt) {S D : Type 0} (reads : StateReads S)
    (db : Kv D) (info : NodeInfo) where
  -- `Handle`
  unfoldable pub handle : Call → S → D → Answer Result × S
  unfolding get_account get_balance get_storage get_code get_block_json get_receipts_json
      get_receipt recent_txs
  handle tyl_block_height s d = (ok (block_height info.height), s)
  handle tyl_state_root s d = (ok (state_root (hash_hex hex info.state_root)), s)
  handle tyl_finalized_height s d =
      (ok (finalized info.finalized_height (hash_hex hex info.finalized_root) info.height), s)
  handle (tyl_get_account params) s d = (get_account hex reads params s, s)
  handle (tyl_get_balance params) s d = (get_balance hex reads params s, s)
  handle (tyl_get_storage params) s d = get_storage hex reads params s
  handle (tyl_get_code params) s d = (get_code hex reads params s, s)
  handle (tyl_get_block params) s d = (get_block_json hex unmarshal db info params d, s)
  handle (tyl_get_receipts params) s d = (get_receipts_json hex unmarshal db info params d, s)
  handle (tyl_get_receipt params) s d = (get_receipt hex unmarshal db info params d, s)
  handle (tyl_recent_txs params) s d = (recent_txs hex unmarshal db info params d, s)
  handle other_method s d = (err unknown_method, s)
