-- ===== src/Executor/Block.antt =====
-- internal/executor/executor.go: `ProcessBlock`, the transactions of one L1 block in their order.
use tylium.Prelude.{ℕ, Bool, Option, none, some, List, [], ◌∷◌, ◌++◌, if◌then◌else◌}
use tylium.Prelude.Words.{add64, mul64}
use tylium.Bytes.{be}
use tylium.Types.{Transaction, is_zero}
use tylium.Types.Order.{tx_id, tx_less}
use tylium.State.Ops.{StateOps, M, ◌>>=◌, ◌>>◌, pure}
use tylium.Executor.Settle.{Registry}
use tylium.Executor.Execute.{Crypto, Receipt, execute_tx, credit}

-- The executor: the fields of the Go struct, with the state database's state in place of its
-- pointer.
pub record Executor (S : Type 0) : Type 0 where
  pub state : S
  pub current_height : ℕ
  pub coinbase : ℕ
  pub contract_by_id : Registry

pub record Block : Type 0 where
  pub height : ℕ
  pub l1_block_hash : ℕ
  pub prev_state_root : ℕ
  pub state_root : ℕ
  pub tx_root : ℕ
  pub receipt_root : ℕ
  pub transactions : List Transaction
  pub gas_used : ℕ
  pub coinbase : ℕ

-- The variables of the loop over the transactions.
pub record Totals : Type 0 where
  pub receipts : List Receipt
  pub total_gas : ℕ
  pub total_fees : ℕ
  pub registry : Registry

-- The roots of the block: a zero hash for an empty list.
id_bytes : (List ℕ → ℕ) → List Transaction → List ℕ
id_bytes sha256 [] = []
id_bytes sha256 (tx ∷ txs) = be 32 (tx_id sha256 tx) ++ id_bytes sha256 txs

unfoldable pub compute_tx_root : (List ℕ → ℕ) → List Transaction → ℕ
unfolding id_bytes
compute_tx_root sha256 [] = 0
compute_tx_root sha256 (tx ∷ txs) = sha256 (id_bytes sha256 (tx ∷ txs))

receipt_bytes : List Receipt → List ℕ
receipt_bytes [] = []
receipt_bytes (r ∷ rs) = be 32 r.txid ++ ((if r.success then 1 else 0) ∷ receipt_bytes rs)

unfoldable pub compute_receipt_root : (List ℕ → ℕ) → List Receipt → ℕ
unfolding receipt_bytes
compute_receipt_root sha256 [] = 0
compute_receipt_root sha256 (r ∷ rs) = sha256 (receipt_bytes (r ∷ rs))

module _ (c : Crypto) {S : Type 0} (ops : StateOps S) where
  -- The loop. The receipts come out in the order of the transactions.
  unfoldable pub run_all : ℕ → List Transaction → Totals → M S Totals
  unfolding execute_tx
  run_all height [] t = pure t
  run_all height (tx ∷ txs) t = do
    (r, registry) ← execute_tx c ops t.registry height tx
    run_all height txs (record {
      receipts = t.receipts ++ (record r { height = height } ∷ []);
      total_gas = add64 t.total_gas r.gas_used;
      total_fees = add64 t.total_fees (mul64 r.gas_used tx.gas_price);
      registry = registry;
    })

  unfoldable pub pay_coinbase : ℕ → ℕ → M S (Unit {0})
  unfolding credit
  pay_coinbase coinbase fees = if is_zero coinbase then pure tt else credit c ops coinbase fees

  unfoldable pub commit : M S ℕ
  commit s = some (ops.commit s)

  -- From the ordered list on: the loop, the fees and the commit.
  unfoldable pub run_block : ℕ → ℕ → ℕ → Registry → List Transaction → M S (Block × Totals)
  unfolding run_all pay_coinbase commit
  run_block height l1_hash coinbase registry ordered s =
      let prev_root = ops.root s in
      let go : M S (Block × Totals) = (do
        t ←
            run_all height ordered
              (record { receipts = []; total_gas = 0; total_fees = 0; registry = registry })
        pay_coinbase coinbase t.total_fees
        state_root ← commit
        let block : Block = record {
          height = height;
          l1_block_hash = l1_hash;
          prev_state_root = prev_root;
          state_root = state_root;
          tx_root = compute_tx_root c.sha256 ordered;
          receipt_root = compute_receipt_root c.sha256 t.receipts;
          transactions = ordered;
          gas_used = t.total_gas;
          coinbase = coinbase;
        }
        pure (block, t)) in
      go s

  -- `sort.Slice` is the Go library's, a parameter: what it makes of a comparison and a list.
  unfoldable pub process_block :
      ((Transaction → Transaction → Bool) → List Transaction → List Transaction)
      → ℕ
      → ℕ
      → List Transaction
      → Executor S
      → Option ((Block × List Receipt) × Executor S)
  unfolding run_block
  process_block sort_slice height l1_hash txs e =
      let ordered = sort_slice (tx_less c.sha256) txs in
      elim (run_block height l1_hash e.coinbase e.contract_by_id ordered e.state) [
        | none ↦ none
        | some ((block, t), s) ↦ some (
          (block, t.receipts),
          record {
            state = s;
            current_height = height;
            coinbase = e.coinbase;
            contract_by_id = t.registry;
          },
        )
      ]
