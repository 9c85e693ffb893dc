-- ===== src/Executor/Settle.antt =====
-- internal/executor/executor.go: AMM settlement, the transfers that a contract asks for in its
-- slots 300 to 303.
use tylium.Prelude.{ℕ, ◌&&◌, Option, none, some, ◌==◌, ltb, if◌then◌else◌}
use tylium.Prelude.Words.{add64, sub64}
use tylium.Types.{caller_id}
use tylium.State.Ops.{StateOps, M, ◌>>=◌, ◌>>◌, pure, gets, modify, get_or_create_account}
use tylium.Executor.Slots.{read_storage, write_storage}

abbrev pub slot_token_a : ℕ
slot_token_a = 3

abbrev pub slot_debit_a : ℕ
slot_debit_a = 300

abbrev pub slot_credit_a : ℕ
slot_credit_a = 301

abbrev pub slot_debit_b : ℕ
slot_debit_b = 302

abbrev pub slot_credit_b : ℕ
slot_credit_b = 303

abbrev pub token_slot_balance_base : ℕ
token_slot_balance_base = 1000

pub data SettleError : Type 0 where
  token_not_found insufficient_token insufficient_tybtc insufficient_pool_tybtc : SettleError

-- The addresses of the contracts by their ids.
abbrev pub Registry : Type 0
Registry = ℕ → Option ℕ

module _ {S : Type 0} (ops : StateOps S) where
  -- `none` is success.
  unfoldable pub transfer_token : ℕ → ℕ → ℕ → ℕ → M S (Option SettleError)
  unfolding read_storage write_storage
  transfer_token token from to amount = do
    from_bal ← read_storage ops token (add64 token_slot_balance_base from)
    if ltb from_bal amount then pure (some insufficient_token) else (do
      to_bal ← read_storage ops token (add64 token_slot_balance_base to)
      write_storage ops token (add64 token_slot_balance_base from) (sub64 from_bal amount)
      write_storage ops token (add64 token_slot_balance_base to) (add64 to_bal amount)
      pure none)

  -- Native balance from one account to another, with the error of one that has too little.
  unfoldable pub transfer_native : ℕ → ℕ → ℕ → SettleError → M S (Option SettleError)
  transfer_native from to amount e = do
    payer ← gets (get_or_create_account ops from)
    if ltb payer.balance amount then pure (some e) else (do
      modify (ops.set_account from (record payer { balance = sub64 payer.balance amount }))
      payee ← gets (get_or_create_account ops to)
      modify (ops.set_account to (record payee { balance = add64 payee.balance amount }))
      pure none)

  -- A step that is skipped at amount zero, and behind which the rest runs if it succeeds.
  abbrev pub then_settle :
      ℕ → M S (Option SettleError) → M S (Option SettleError) → M S (Option SettleError)
  then_settle amount first rest =
      if amount == 0 then rest else (first >>= λ r. elim r [ some e ↦ pure (some e) | none ↦ rest ])

  unfoldable pub clear_slots : ℕ → M S (Option SettleError)
  unfolding write_storage
  clear_slots contract = do
    write_storage ops contract slot_debit_a 0
    write_storage ops contract slot_credit_a 0
    write_storage ops contract slot_debit_b 0
    write_storage ops contract slot_credit_b 0
    pure none

  -- The four transfers and the clearing of the slots.
  unfoldable pub settle_all : ℕ → ℕ → ℕ → ℕ → ℕ → ℕ → ℕ → M S (Option SettleError)
  unfolding transfer_token transfer_native clear_slots
  settle_all token contract caller debit_a credit_a debit_b credit_b =
      then_settle debit_a (transfer_token token (caller_id caller) (caller_id contract) debit_a) (
        then_settle credit_a (transfer_token token (caller_id contract) (caller_id caller) credit_a)
          (then_settle debit_b (transfer_native caller contract debit_b insufficient_tybtc) (
            then_settle credit_b (transfer_native contract caller credit_b insufficient_pool_tybtc)
              (clear_slots contract))))

  -- From the test for all zeros on.
  unfoldable pub settle_slots : Registry → ℕ → ℕ → ℕ → ℕ → ℕ → ℕ → ℕ → M S (Option SettleError)
  settle_slots registry contract caller token_id debit_a credit_a debit_b credit_b =
      if debit_a == 0 && (credit_a == 0 && (debit_b == 0 && credit_b == 0))
      then pure none
      else elim (registry token_id) [
        | none ↦ pure (some token_not_found)
        | some token ↦ settle_all token contract caller debit_a credit_a debit_b credit_b
      ]

  unfoldable pub settle_amm : Registry → ℕ → ℕ → M S (Option SettleError)
  unfolding read_storage
  settle_amm registry contract caller = do
    token_id ← read_storage ops contract slot_token_a
    if token_id == 0 then pure none else (do
      debit_a ← read_storage ops contract slot_debit_a
      credit_a ← read_storage ops contract slot_credit_a
      debit_b ← read_storage ops contract slot_debit_b
      credit_b ← read_storage ops contract slot_credit_b
      settle_slots registry contract caller token_id debit_a credit_a debit_b credit_b)
