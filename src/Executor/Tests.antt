-- ===== src/Executor/Tests.antt =====
-- Transactions on a small ledger, and the theorems there.
use tylium.Prelude.{
  ℕ, inl, ◌+◌, ◌≡◌, ◌≢◌, ◌⊎◌, ◌≤◌, false, none, some, List, [], ◌∷◌, ◌++◌, refl, arith, ◌==◌,
  if◌then◌else◌,
}
use tylium.Bytes.{be, from_be}
use tylium.Types.{Transaction, caller_id}
use tylium.State.Ledger.{Ledger, ledger_ops}
use tylium.Encoding.Fields.{ok, read_at}
use tylium.Encoding.Tx.{encode_tx}
use tylium.Encoding.Envelope.{
  Envelope, type_tx, type_deposit, encode_envelope, decode_envelope, encode_deposit,
}
use tylium.Scanner.Extractor.{process_payload, deposit_tx}
use tylium.Executor.Slots.{read_storage, write_storage, write_args, write_call_data}
use tylium.Executor.Htlc.{not_pending, claim, refund, query, copy_slot, process_htlc, pay_out}
use tylium.Executor.Settle.{Registry, transfer_token}
use tylium.Executor.Execute.{
  Crypto, Receipt, charge, credit, revert, take_snapshot, run_call, execute_paid, execute_checked,
  execute_tx,
}
use tylium.Signature.{Curve, verify_sender}
use tylium.Executor.Refusals.{execute_tx-Refused}
use tylium.Executor.Rollback.{Charged, execute_tx-failed}
use tylium.Executor.Mint.{Minted, forged-Minted, process_payload-deposit}
use tylium.Executor.Claims.{Entitled, claim-Entitled}
use tylium.Executor.Once.{now, called, claim-once}
use tylium.Executor.Payments.{Refundable, refund-Refundable, Paid, claim-Paid}
use tylium.Executor.Transfers.{token_balance, transfer_token_self, transfer_token_sum}

-- Every signature is one of address 9, and every hash is 77.
abbrev keyed : Curve
keyed = record {
  recover_compact = λ bytes h. some 1;
  parse_der_signature = λ bytes. none;
  verify_parsed = λ p h key. false;
  ripemd160 = λ bytes. 9;
}

abbrev lenient : Crypto
lenient = record { sha256 = λ bytes. 77; curve = keyed }

abbrev nobody_registered : Registry
nobody_registered id = none

abbrev genesis : Ledger
genesis = record {
  view = record {
    accounts = λ a.
        if a == 9
        then some (record { nonce = 0; balance = 1000; code_hash = 0; storage_root = 0 })
        else none;
    slots = λ a k. 0;
  };
  codes = λ h. none;
  saved = [];
}

-- A call of the system address with a selector that it does not know.
abbrev unknown_call : Transaction
unknown_call = record {
  version = 1;
  nonce = 0;
  sender = 9;
  recipient = 1;
  value = 10;
  gas_price = 2;
  gas_limit = 300;
  priority = 0;
  payload = be 8 9;
  signature = 0;
}

abbrev Ran : Transaction → Type 0
Ran tx =
    (x : (Receipt × Registry) × Ledger) × (execute_tx lenient (ledger_ops lenient.sha256)
        nobody_registered 5 tx genesis
      ≡ some x)

abbrev ran : Ran unknown_call
unfolding execute_tx charge credit revert take_snapshot run_call execute_paid write_call_data
    write_args process_htlc read_storage write_storage be from_be caller_id verify_sender
ran = (_, refl)

ran_failed : ran.0.0.0.success ≡ false
unfolding ran
ran_failed = refl

ran_used : ran.0.0.0.gas_used ≡ 200
unfolding ran
ran_used = refl

execute_tx-failed_example :
    ((ran.0.1 ≡ genesis) ⊎ Charged unknown_call ran.0.0.0 genesis ran.0.1)
    × (ran.0.0.1 ≡ nobody_registered)
execute_tx-failed_example =
    execute_tx-failed lenient nobody_registered 5 unknown_call genesis ran.0.1 ran.0.0.0 ran.0.0.1
      ran.1 ran_failed

abbrev too_dear : Transaction
too_dear = record unknown_call { value = 5000 }

abbrev declined : Ran too_dear
unfolding execute_tx execute_checked verify_sender be from_be
declined = (_, refl)

execute_tx-Refused_example : (declined.0.1 ≡ genesis) × (declined.0.0.1 ≡ nobody_registered)
unfolding declined
execute_tx-Refused_example =
    execute_tx-Refused lenient (ledger_ops lenient.sha256) 5 too_dear nobody_registered genesis
      declined.0.1 declined.0.0.0 declined.0.0.1 declined.1 refl

abbrev forged : Transaction
forged = record {
  version = 1;
  nonce = 0;
  sender = 0;
  recipient = 9;
  value = 2100;
  gas_price = 0;
  gas_limit = 0;
  priority = 0;
  payload = [];
  signature = 0;
}

forged-Minted_example :
    (process_payload 0 4
        (encode_envelope type_tx (encode_tx forged ++ []) ++ [])
        (record { txs = []; checkpoints = [] })
      ≡ record { txs = forged ∷ []; checkpoints = [] })
    × Minted lenient nobody_registered 5 forged genesis
forged-Minted_example =
    forged-Minted forged (omega arith) [] [] lenient nobody_registered 5 4 genesis (omega arith)
      (omega arith) (unfold encode_tx be in (omega arith)) refl (omega arith)

-- A deposit of 500 in an output that burns 300.
abbrev deposit_payload : List ℕ
deposit_payload = encode_envelope type_deposit (encode_deposit 9 500)

abbrev deposit_decoded : (env : Envelope) × (decode_envelope deposit_payload ≡ ok env)
unfolding decode_envelope encode_envelope encode_deposit be from_be read_at
deposit_decoded = (_, refl)

process_payload-deposit_example :
    (process_payload 300 4 deposit_payload (record { txs = []; checkpoints = [] })
      ≡ record { txs = []; checkpoints = [] })
    ⊎ ((recipient : ℕ) × (value : ℕ) × (process_payload 300 4 deposit_payload
            (record { txs = []; checkpoints = [] })
          ≡ record { txs = [] ++ (deposit_tx 4 recipient value ∷ []); checkpoints = [] })
        × (value ≤ 300)
        × (value ≢ 0))
unfolding deposit_decoded
process_payload-deposit_example =
    process_payload-deposit 300 4 deposit_payload (record { txs = []; checkpoints = [] })
      deposit_decoded.0 deposit_decoded.1 refl

-- A pending contract 0 of 50 for the id 9, and its claim in the call data.
abbrev locked : Ledger
locked = record {
  view = record {
    accounts = λ a.
        if a == 1
        then some (record { nonce = 0; balance = 50; code_hash = 0; storage_root = 0 })
        else none;
    slots = λ a k.
        if k == 0
        then 1
        else if k == 10001
        then 9
        else if k == 10002
        then 50
        else if k == 10006
        then 77
        else 0;
  };
  codes = λ h. none;
  saved = [];
}

abbrev constant_hash : List ℕ → ℕ
constant_hash bytes = 77

abbrev claimed :
    (s' : Ledger) × (claim (ledger_ops constant_hash) constant_hash unknown_call 9 locked
      ≡ some (none, s'))
unfolding claim read_storage write_storage pay_out be from_be
claimed = (_, refl)

claim-Entitled_example : Entitled constant_hash 9 locked
claim-Entitled_example = claim-Entitled constant_hash unknown_call 9 locked claimed.0 claimed.1

-- The claim through the handler, a query of 8 behind it, and a claim of 8 behind that.
abbrev claiming : Ledger
claiming = record locked {
  view = record {
    accounts = locked.view.accounts;
    slots = λ a k. if k == 100 then 2 else if k == 103 then 9 else locked.view.slots a k;
  };
}

abbrev claimed_by_call :
    (s' : Ledger) × (process_htlc (ledger_ops constant_hash) constant_hash 5 unknown_call claiming
      ≡ some (none, s'))
unfolding process_htlc claim read_storage write_storage pay_out be from_be
claimed_by_call = (_, refl)

abbrev query_written :
    (t : Ledger) × (write_call_data
        (ledger_ops constant_hash)
        1
        8
        (be 8 4 ++ be 8 0)
        claimed_by_call.0
      ≡ some (tt, t))
unfolding write_call_data
query_written = (_, refl)

abbrev queried :
    (t : Ledger) × (process_htlc
        (ledger_ops constant_hash)
        constant_hash
        6
        unknown_call
        query_written.0
      ≡ some (none, t))
unfolding process_htlc query copy_slot read_storage write_storage write_args be from_be
    claimed_by_call query_written
queried = (_, refl)

abbrev claim_written :
    (t : Ledger) × (write_call_data (ledger_ops constant_hash) 1 8 (be 8 2 ++ be 8 0) queried.0
      ≡ some (tt, t))
unfolding write_call_data
claim_written = (_, refl)

claim-once_example :
    process_htlc (ledger_ops constant_hash) constant_hash 7 too_dear claim_written.0
    ≡ some (some not_pending, claim_written.0)
unfolding write_args be from_be claimed_by_call query_written queried claim_written
claim-once_example =
    claim-once constant_hash 5 unknown_call claiming claimed_by_call.0 queried.0 claim_written.0
      (omega arith) refl claimed_by_call.1
      (called now 8 6 (be 8 4 ++ be 8 0) unknown_call none (omega arith) (omega arith)
        query_written.1 queried.1)
      7 8 (be 8 2 ++ be 8 0) too_dear (omega arith) claim_written.1 refl (inl refl)

-- Holders 3 and 4 of token 70.
abbrev holdings : Ledger
holdings = record locked {
  view = record {
    accounts = λ a. none;
    slots = λ a k. if k == 1003 then 40 else if k == 1004 then 2 else 0;
  };
}

transfer_token_self_example :
    (s' : Ledger) × (transfer_token (ledger_ops constant_hash) 70 3 3 25 holdings ≡ some (none, s'))
    × (token_balance constant_hash 70 3 s' ≡ 40 + 25)
transfer_token_self_example =
    transfer_token_self constant_hash 70 3 25 holdings (omega arith) (omega arith)

abbrev moved :
    (s' : Ledger) × (transfer_token (ledger_ops constant_hash) 70 3 4 25 holdings ≡ some (none, s'))
unfolding transfer_token read_storage write_storage
moved = (_, refl)

transfer_token_sum_example :
    token_balance constant_hash 70 3 moved.0 + token_balance constant_hash 70 4 moved.0 ≡ 40 + 2
transfer_token_sum_example =
    transfer_token_sum constant_hash 70 3 4 25 holdings moved.0 (omega arith) (omega arith) moved.1

claim-Paid_example : Paid constant_hash 9 locked claimed.0
claim-Paid_example =
    claim-Paid constant_hash unknown_call 9 locked claimed.0 (omega arith) claimed.1

abbrev refunded :
    (s' : Ledger) × (refund (ledger_ops constant_hash) constant_hash 7 unknown_call 0 locked
      ≡ some (none, s'))
unfolding refund read_storage write_storage pay_out
refunded = (_, refl)

refund-Refundable_example : Refundable constant_hash 7 0 locked
refund-Refundable_example =
    refund-Refundable constant_hash 7 unknown_call 0 locked refunded.0 refunded.1
