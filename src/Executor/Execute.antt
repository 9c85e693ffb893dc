-- ===== src/Executor/Execute.antt =====
-- internal/executor/executor.go: one transaction, and a block of them.
use tylium.Prelude.{
  ℕ, ◌+◌, ◌/◌, Bool, true, false, ◌&&◌, ◌||◌, not, Option, none, some, List, ◌++◌, ◌==◌, ltb,
  length, take, if◌then◌else◌,
}
use tylium.Prelude.Words.{add64, sub64, mul64}
use tylium.Bytes.{be, from_be}
use tylium.Types.{Transaction, caller_id, is_zero, is_contract}
use tylium.Types.Order.{tx_id, signing_hash}
use tylium.State.Ops.{StateOps, M, ◌>>=◌, ◌>>◌, pure, gets, modify, get_or_create_account, accessor}
use tylium.Vm.Stack.{VmError}
use tylium.Vm.Exec.{ExecResult, returned, panicked, execute}
use tylium.Signature.{Curve, verify_sender}
use tylium.Executor.Slots.{write_call_data}
use tylium.Executor.Htlc.{HtlcError, htlc_system_address, fn_claim, process_htlc}
use tylium.Executor.Settle.{SettleError, Registry, settle_amm}

abbrev pub tx_base_gas : ℕ
tx_base_gas = 200

abbrev pub create_base_gas : ℕ
create_base_gas = 300

abbrev pub max_code_size : ℕ
max_code_size = 100000

abbrev pub max_call_data_size : ℕ
max_call_data_size = 65536

-- `Receipt.Err`. A return inside the machine gives the machine's error, if there is one.
pub data TxError : Type 0 where
  invalid_signature code_too_large call_data_too_large gas_limit_too_low : TxError
  gas_cost_overflow value_gas_overflow insufficient_balance claim_with_value : TxError
  nonce_mismatch : ℕ → ℕ → TxError
  htlc : HtlcError → TxError
  machine : Option VmError → TxError
  settlement : SettleError → TxError

pub record Receipt : Type 0 where
  pub txid : ℕ
  pub height : ℕ
  pub success : Bool
  pub gas_used : ℕ
  pub error : Option TxError

-- What comes from outside: SHA-256 and the ECDSA library.
pub record Crypto : Type 0 where
  pub sha256 : List ℕ → ℕ
  pub curve : Curve

-- The selector is the first eight bytes.
unfoldable pub is_htlc_claim : Transaction → Bool
is_htlc_claim tx =
    if not (tx.recipient == htlc_system_address) || ltb (length tx.payload) 8
    then false
    else from_be (take 8 tx.payload) == fn_claim

module _ (c : Crypto) where
  unfoldable pub derive_contract_address : ℕ → ℕ → ℕ
  derive_contract_address creator nonce =
      from_be (take 20 (be 32 (c.sha256 (be 20 creator ++ be 8 nonce))))

  abbrev receipt : Transaction → Bool → ℕ → Option TxError → Receipt
  receipt tx success gas e = record {
    txid = tx_id c.sha256 tx;
    height = 0;
    success = success;
    gas_used = gas;
    error = e;
  }

  abbrev pub refused : {S : Type 0} → Transaction → TxError → M S Receipt
  refused tx e = pure (receipt tx false 0 (some e))

  module _ {S : Type 0} (ops : StateOps S) where
    -- `if v > 0 { acct := …; acct.Balance += v; SetAccount }`
    unfoldable pub credit : ℕ → ℕ → M S (Unit {0})
    credit a v = if v == 0 then pure tt else (do
      acct ← gets (get_or_create_account ops a)
      modify (ops.set_account a (record acct { balance = add64 acct.balance v })))

    -- The nonce goes up and an amount is taken off, as it is done upfront and again after a revert.
    -- The account is read here; upfront the code has read it before the snapshot, which changes none.
    unfoldable pub charge : ℕ → ℕ → M S (Unit {0})
    charge a amount = do
      acct ← gets (get_or_create_account ops a)
      modify (
          ops.set_account a
            (record acct { nonce = add64 acct.nonce 1; balance = sub64 acct.balance amount }))

    unfoldable pub revert : ℕ → M S (Unit {0})
    revert id = modify (ops.revert_to_snapshot id)

    unfoldable pub take_snapshot : M S ℕ
    take_snapshot s = some (ops.snapshot s)

    -- A gasless claim: the nonce goes up whether it succeeds or not.
    unfoldable pub execute_htlc_claim : ℕ → Transaction → M S Receipt
    execute_htlc_claim height tx = if not (tx.value == 0) then refused tx claim_with_value else (do
      sender ← gets (get_or_create_account ops tx.sender)
      if not (tx.nonce == sender.nonce)
          then refused tx (nonce_mismatch sender.nonce tx.nonce)
          else (do
            snap ← take_snapshot
            charge tx.sender 0
            write_call_data ops tx.recipient tx.sender tx.payload
            verdict ← process_htlc ops c.sha256 height tx
            elim verdict [
              | some e ↦ (do
                revert snap
                charge tx.sender 0
                pure (receipt tx false 0 (some (htlc e))))
              | none ↦ pure (receipt tx true 0 none)
            ]))

    -- What the call of a transaction came to: the gas used, the error if it failed, and the
    -- registry behind it.
    abbrev pub Called : Type 0
    Called = ℕ × Option TxError × Registry

    -- `e.vm.Execute(ctx)`: a panic of the machine is one of the node.
    unfoldable pub run_machine : Transaction → ℕ → List ℕ → M S ExecResult
    run_machine tx gas_left code s =
        elim (execute (accessor ops) (record {
          caller = tx.sender;
          target = tx.recipient;
          value = tx.value;
          gas_left = gas_left;
          code = code;
          state = s;
        })) [ none ↦ none | some (panicked m) ↦ none | some (returned r m) ↦ some (r, m.state) ]

    unfoldable pub call_contract : Registry → Transaction → ℕ → List ℕ → M S Called
    call_contract registry tx intrinsic code = do
      write_call_data ops tx.recipient tx.sender tx.payload
      r ← run_machine tx (sub64 tx.gas_limit intrinsic) code
      let used = add64 intrinsic r.gas_used
      if not r.success then pure (used, some (machine r.error), registry) else (do
        settled ← settle_amm ops registry tx.recipient tx.sender
        elim settled [
          | some e ↦ pure (used, some (settlement e), registry)
          | none ↦ pure (used, none, registry)
        ])

    unfoldable pub create_contract : Registry → Transaction → ℕ → M S Called
    unfolding derive_contract_address
    create_contract registry tx intrinsic = do
      let addr = derive_contract_address tx.sender tx.nonce
      modify (ops.set_code addr tx.payload)
      pure (intrinsic, none, λ id. if caller_id addr == id then some addr else registry id)

    unfoldable pub run_call : Registry → ℕ → Transaction → ℕ → M S Called
    run_call registry height tx intrinsic =
        if (tx.recipient == htlc_system_address) && ltb 0 (length tx.payload)
        then (do
          write_call_data ops tx.recipient tx.sender tx.payload
          verdict ← process_htlc ops c.sha256 height tx
          elim verdict [
            | some e ↦ pure (intrinsic, some (htlc e), registry)
            | none ↦ pure (intrinsic, none, registry)
          ])
        else if is_zero tx.recipient
        then create_contract registry tx intrinsic
        else if not (ltb 0 (length tx.payload))
        then pure (intrinsic, none, registry)
        else (do
          found ← gets (ops.get_account tx.recipient)
          elim found [
            | none ↦ pure (intrinsic, none, registry)
            | some acct ↦ if not (is_contract acct) then pure (intrinsic, none, registry) else (do
              stored ← gets (ops.get_code acct.code_hash)
              elim stored [
                | none ↦ pure (intrinsic, none, registry)
                | some code ↦ call_contract registry tx intrinsic code
              ])
          ])

    -- From the snapshot on, once all checks have passed.
    unfoldable pub execute_paid : Registry → ℕ → Transaction → ℕ → ℕ → M S (Receipt × Registry)
    execute_paid registry height tx intrinsic max_cost = do
      snap ← take_snapshot
      charge tx.sender max_cost
      credit tx.recipient tx.value
      called ← run_call registry height tx intrinsic
      let used = called.0
      elim called.1 [
        | some e ↦ (do
          revert snap
          charge tx.sender (mul64 tx.gas_price used)
          pure (receipt tx false used (some e), registry))
        | none ↦ (do
          acct ← gets (get_or_create_account ops tx.sender)
          modify (
              ops.set_account tx.sender (record acct {
                balance = add64 acct.balance (mul64 (sub64 tx.gas_limit used) tx.gas_price);
              }))
          pure (receipt tx true used none, called.2))
      ]

    abbrev pub intrinsic_gas : Transaction → ℕ
    intrinsic_gas tx = if is_zero tx.recipient then tx_base_gas + create_base_gas else tx_base_gas

    -- A refusal that leaves the registry as it is.
    abbrev pub refused_with : Registry → Transaction → TxError → M S (Receipt × Registry)
    refused_with registry tx e = pure (receipt tx false 0 (some e), registry)

    -- The checks of size, gas, balance and nonce.
    unfoldable pub execute_checked : Registry → ℕ → Transaction → M S (Receipt × Registry)
    unfolding execute_paid
    execute_checked registry height tx =
        if is_zero tx.recipient && ltb max_code_size (length tx.payload)
        then refused_with registry tx code_too_large
        else if not (is_zero tx.recipient) && ltb max_call_data_size (length tx.payload)
        then refused_with registry tx call_data_too_large
        else if ltb tx.gas_limit (intrinsic_gas tx)
        then refused_with registry tx gas_limit_too_low
        else (do
          sender ← gets (get_or_create_account ops tx.sender)
          let gas_cost = mul64 tx.gas_price tx.gas_limit
          let max_cost = add64 tx.value gas_cost
          if not (tx.gas_price == 0) && not (gas_cost / tx.gas_price == tx.gas_limit)
              then refused_with registry tx gas_cost_overflow
              else if ltb max_cost tx.value
              then refused_with registry tx value_gas_overflow
              else if ltb sender.balance max_cost
              then refused_with registry tx insufficient_balance
              else if not (tx.nonce == sender.nonce)
              then refused_with registry tx (nonce_mismatch sender.nonce tx.nonce)
              else execute_paid registry height tx (intrinsic_gas tx) max_cost)

    unfoldable pub execute_tx : Registry → ℕ → Transaction → M S (Receipt × Registry)
    unfolding credit is_htlc_claim execute_htlc_claim execute_checked
    execute_tx registry height tx =
        if is_zero tx.sender
        then (do credit tx.recipient tx.value; pure (receipt tx true 0 none, registry))
        else if not
            (verify_sender c.sha256 c.curve (signing_hash c.sha256 tx) tx.signature tx.sender)
        then refused_with registry tx invalid_signature
        else if is_htlc_claim tx
        then (do r ← execute_htlc_claim height tx; pure (r, registry))
        else execute_checked registry height tx
