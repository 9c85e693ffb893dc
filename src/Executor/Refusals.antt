-- ===== src/Executor/Refusals.antt =====
-- Transactions that are refused before they are charged.
use tylium.Prelude.{
  ℕ, Bool, true, false, List, Option, none, some, ◌≡◌, arith, Bool-cases, Option-cases, inl, inr,
  ◌⊎◌, ◌&&◌, not, ◌==◌, ltb, length,
}
use tylium.Prelude.Words.{add64, mul64}
use tylium.Types.{Transaction, is_zero}
use tylium.Types.Order.{signing_hash}
use tylium.State.Ops.{StateOps, M, ◌>>◌}
use tylium.Signature.{verify_sender}
use tylium.Executor.Settle.{Registry}
use tylium.Executor.Htlc.{htlc_system_address}
use tylium.Executor.Execute.{
  Crypto, is_htlc_claim, intrinsic_gas, charge, credit, revert, take_snapshot, TxError, htlc,
  machine, settlement, Receipt, execute_htlc_claim, create_contract, call_contract, execute_paid,
  execute_checked, execute_tx, run_call,
}

-- The errors of the checks; the others are those of the call itself.
abbrev pub is_refusal : TxError → Bool
is_refusal (htlc e) = false
is_refusal (machine e) = false
is_refusal (settlement e) = false
is_refusal e = true

abbrev pub Refused : Option TxError → Type 0
Refused none = ⊥
Refused (some e) = is_refusal e ≡ true

module _ (c : Crypto) {S : Type 0} (ops : StateOps S) (height : ℕ) (tx : Transaction) (s : S) where
  call_contract-accepted :
      (registry : Registry) (intrinsic : ℕ) (code : List ℕ) (s' : S) (used : ℕ) (e : TxError)
      (registry' : Registry)
      → call_contract c ops registry tx intrinsic code s ≡ some ((used, some e, registry'), s')
      → is_refusal e ≡ false
  unfolding call_contract
  call_contract-accepted registry intrinsic code s' used e registry' h = ground arith

  create_contract-accepted :
      (registry : Registry) (intrinsic : ℕ) (s' : S) (used : ℕ) (e : TxError) (registry' : Registry)
      → create_contract c ops registry tx intrinsic s ≡ some ((used, some e, registry'), s')
      → is_refusal e ≡ false
  unfolding create_contract
  create_contract-accepted registry intrinsic s' used e registry' h = ground arith

  module _ (registry : Registry) (intrinsic : ℕ) (s' : S) (used : ℕ) (e : TxError)
      (registry' : Registry)
      (h : run_call c ops registry height tx intrinsic s
        ≡ some ((used, some e, registry'), s')) where
    to_system : Bool
    to_system = (tx.recipient == htlc_system_address) && ltb 0 (length tx.payload)

    system-accepted : to_system ≡ true → is_refusal e ≡ false
    unfolding run_call to_system
    system-accepted i = ground arith

    creation-accepted : to_system ≡ false → is_zero tx.recipient ≡ true → is_refusal e ≡ false
    unfolding run_call to_system
    creation-accepted i j =
        ground (arith, create_contract-accepted registry intrinsic s' used e registry')

    called-accepted : to_system ≡ false → is_zero tx.recipient ≡ false → is_refusal e ≡ false
    unfolding run_call to_system
    called-accepted i j = elim (Option-cases (ops.get_account tx.recipient s)) [
      | inl none_there ↦ ground arith
      | inr (acct, there) ↦ elim (Option-cases (ops.get_code acct.code_hash s)) [
        | inl no_code ↦ ground arith
        | inr (code, stored) ↦
            ground (arith, call_contract-accepted registry intrinsic code s' used e registry')
      ]
    ]

    run_call-accepted : is_refusal e ≡ false
    run_call-accepted = elim (Bool-cases to_system) [
      | inl i ↦ system-accepted i
      | inr i ↦ elim (Bool-cases (is_zero tx.recipient)) [
        | inl j ↦ creation-accepted i j
        | inr j ↦ called-accepted i j
      ]
    ]

  execute_htlc_claim-Refused :
      (s' : S) (r : Receipt)
      → execute_htlc_claim c ops height tx s ≡ some (r, s')
      → Refused r.error
      → s' ≡ s
  unfolding execute_htlc_claim
  execute_htlc_claim-Refused s' r h i = ground arith

  run_call-Refused :
      (registry : Registry) (intrinsic : ℕ) (s' : S) (used : ℕ) (error : Option TxError)
      (registry' : Registry)
      → run_call c ops registry height tx intrinsic s ≡ some ((used, error, registry'), s')
      → Refused error
      → ⊥
  run_call-Refused registry intrinsic s' used none registry' h i = i
  run_call-Refused registry intrinsic s' used (some e) registry' h i =
      ground (arith, run_call-accepted registry intrinsic s' used e registry' h)

module _ (c : Crypto) {S : Type 0} (ops : StateOps S) (height : ℕ) (tx : Transaction) where
  -- What comes before the call in the paid path.
  upfront : ℕ → M S (Unit {0})
  upfront max_cost = charge c ops tx.sender max_cost >> credit c ops tx.recipient tx.value

  execute_paid-accepted :
      (registry : Registry) (intrinsic max_cost : ℕ) (s s' : S) (r : Receipt) (registry' : Registry)
      → execute_paid c ops registry height tx intrinsic max_cost s ≡ some ((r, registry'), s')
      → Refused r.error
      → ⊥
  unfolding execute_paid upfront charge credit revert take_snapshot
  execute_paid-accepted registry intrinsic max_cost s s' r registry' h i =
      elim (Option-cases (upfront max_cost (ops.snapshot s).1)) [
        | inl stuck ↦ ground arith
        | inr ((u, s₂), charged) ↦
            elim (Option-cases (run_call c ops registry height tx intrinsic s₂)) [
              | inl stuck ↦ ground arith
              | inr (((used, none, registry''), s₃), ran) ↦ ground arith
              | inr (((used, some e, registry''), s₃), ran) ↦ ground (
                arith,
                run_call-accepted c ops height tx s₂ registry intrinsic s₃ used e registry'' ran,
              )
            ]
      ]

  -- The paid path is taken, or nothing is done.
  pub execute_checked-cases :
      (registry : Registry) (s s' : S) (r : Receipt) (registry' : Registry)
      → execute_checked c ops registry height tx s ≡ some ((r, registry'), s')
      → ((s' ≡ s) × (registry' ≡ registry))
        ⊎ (execute_paid c ops registry height tx
              (intrinsic_gas c ops tx)
              (add64 tx.value (mul64 tx.gas_price tx.gas_limit))
              s
            ≡ some ((r, registry'), s'))
  unfolding execute_checked
  execute_checked-cases registry s s' r registry' h = ground arith

  execute_checked-Refused :
      (registry : Registry) (s s' : S) (r : Receipt) (registry' : Registry)
      → execute_checked c ops registry height tx s ≡ some ((r, registry'), s')
      → Refused r.error
      → (s' ≡ s) × (registry' ≡ registry)
  unfolding execute_checked
  execute_checked-Refused registry s s' r registry' h i = ground (
    arith,
    execute_paid-accepted registry (intrinsic_gas c ops tx)
        (add64 tx.value (mul64 tx.gas_price tx.gas_limit)) s s' r registry',
  )

  pub verified : Bool
  verified =
      not (is_zero tx.sender)
      && verify_sender c.sha256 c.curve (signing_hash c.sha256 tx) tx.signature tx.sender

  unverified-Refused :
      (registry : Registry) (s s' : S) (r : Receipt) (registry' : Registry)
      → verified ≡ false
      → execute_tx c ops registry height tx s ≡ some ((r, registry'), s')
      → Refused r.error
      → (s' ≡ s) × (registry' ≡ registry)
  unfolding execute_tx verified
  unverified-Refused registry s s' r registry' v h i = ground arith

  pub unverified-failed :
      (registry : Registry) (s s' : S) (r : Receipt) (registry' : Registry)
      → verified ≡ false
      → execute_tx c ops registry height tx s ≡ some ((r, registry'), s')
      → r.success ≡ false
      → (s' ≡ s) × (registry' ≡ registry)
  unfolding execute_tx verified
  unverified-failed registry s s' r registry' v h i = ground arith

  pub claim-ran :
      (registry : Registry) (s s' : S) (r : Receipt) (registry' : Registry)
      → verified ≡ true
      → is_htlc_claim tx ≡ true
      → execute_tx c ops registry height tx s ≡ some ((r, registry'), s')
      → (execute_htlc_claim c ops height tx s ≡ some (r, s')) × (registry' ≡ registry)
  unfolding execute_tx verified
  claim-ran registry s s' r registry' v k h = ground arith

  pub other-checked :
      (registry : Registry) (s s' : S) (r : Receipt) (registry' : Registry)
      → verified ≡ true
      → is_htlc_claim tx ≡ false
      → execute_tx c ops registry height tx s ≡ some ((r, registry'), s')
      → execute_checked c ops registry height tx s ≡ some ((r, registry'), s')
  unfolding execute_tx verified
  other-checked registry s s' r registry' v k h = ground arith

  -- A transaction that fails with an error of the checks (signature, sizes, gas, overflow, balance,
  -- nonce, a value on a claim) leaves the state and the registry exactly as they were, whatever the
  -- state database is.
  pub execute_tx-Refused :
      (registry : Registry) (s s' : S) (r : Receipt) (registry' : Registry)
      → execute_tx c ops registry height tx s ≡ some ((r, registry'), s')
      → Refused r.error
      → (s' ≡ s) × (registry' ≡ registry)
  execute_tx-Refused registry s s' r registry' h i = elim (Bool-cases verified) [
    | inr v ↦ unverified-Refused registry s s' r registry' v h i
    | inl v ↦ elim (Bool-cases (is_htlc_claim tx)) [
      | inr k ↦
          execute_checked-Refused registry s s' r registry'
            (other-checked registry s s' r registry' v k h) i
      | inl k ↦
          let (ran, same) = claim-ran registry s s' r registry' v k h in
          (execute_htlc_claim-Refused c ops height tx s s' r ran i, same)
    ]
  ]
