-- ===== src/Executor/Keeps/Call.antt =====
-- internal/executor/executor.go: what the machine and the calls keep.
use tylium.Prelude.{
  ℕ, suc, true, Option, some, List, ◌≡◌, arith, ◌==◌, ◌&&◌, ltb, length, Bool-cases, Option-cases,
  inl, inr, ◌≢◌,
}
use tylium.Prelude.Words.{sub64}
use tylium.Types.{Transaction}
use tylium.State.Ops.{StateOps}
use tylium.Executor.Slots.{write_call_data}
use tylium.Vm.Context.{Context}
use tylium.Vm.Rounds.{exec_rule}
use tylium.Executor.Execute.{
  Crypto, TxError, run_machine, call_contract, create_contract, run_call, charge, credit,
}
use tylium.Vm.Exec.{
  start, execute, Machine, Exit, returned, panicked, running, exited, step, run_metered, run_op,
}
use tylium.State.Ops.{accessor}
use tylium.Executor.Settle.{Registry, settle_amm}
use tylium.Executor.Htlc.{process_htlc, htlc_system_address}
use tylium.Executor.Keeps.{IsStable, Keeps, write_call_data-Keeps}
use tylium.Executor.Keeps.Htlc.{process_htlc-Keeps}
use tylium.Executor.Keeps.Settle.{settle_amm-Keeps}

module _ {S : Type 0} (ops : StateOps S) (P : S → Type 0) (st : IsStable ops P) where
  abbrev KeptAt : Exit S → Type 0
  KeptAt (returned r m) = P m.state
  KeptAt (panicked m) = P m.state

  step-Keeps :
      (target : ℕ) (code : List ℕ) (m m' : Machine S)
      → P m.state
      → step (accessor ops) target code m ≡ running m'
      → P m'.state
  unfolding step run_metered run_op
  step-Keeps target code m m' p h = grind (arith, st.get_storage, st.set_storage)

  step-exit_state :
      (target : ℕ) (code : List ℕ) (m : Machine S) (e : Exit S)
      → P m.state
      → step (accessor ops) target code m ≡ exited e
      → KeptAt e
  unfolding step run_metered run_op
  step-exit_state target code m e p h = grind (arith, st.get_storage, st.set_storage)

  module _ (c : Crypto) where
    run_machine-Keeps :
        (tx : Transaction) (gas_left : ℕ) (code : List ℕ)
        → Keeps P (run_machine c ops tx gas_left code)
    unfolding run_machine execute
    run_machine-Keeps tx gas_left code s p b s' h =
        elim (Option-cases (execute (accessor ops) (call_context s))) [
          | inl stuck ↦ absurd (ground arith)
          | inr (e, ran) ↦ left e ran (ends e ran)
        ]
      where
        call_context : S → Context S
        call_context s = record {
          caller = tx.sender;
          target = tx.recipient;
          value = tx.value;
          gas_left = gas_left;
          code = code;
          state = s;
        }

        ends : (e : Exit S) → execute (accessor ops) (call_context s) ≡ some e → KeptAt e
        ends e ran =
            exec_rule (accessor ops) tx.recipient code (λ (m : Machine S). P m.state) KeptAt
              (λ m m' i go. step-Keeps tx.recipient code m m' i go)
              (λ m e i within left. step-exit_state tx.recipient code m e i left) (λ m i. i)
              (suc gas_left) (start (call_context s)) e p ran

        left : (e : Exit S) → execute (accessor ops) (call_context s) ≡ some e → KeptAt e → P s'
        left (panicked m) ran k = absurd (ground arith)
        left (returned r m) ran k = ground arith

    pub credit-Keeps : (a v : ℕ) → Keeps P (credit c ops a v)
    unfolding credit
    credit-Keeps a v s p b s' h = grind (arith, st.set_account)

    pub charge-Keeps : (a v : ℕ) → Keeps P (charge c ops a v)
    unfolding charge
    charge-Keeps a v s p b s' h = grind (arith, st.set_account)

    -- The creation of a contract does not fail.
    create_contract-succeeds :
        (registry : Registry) (tx : Transaction) (intrinsic : ℕ) (s s' : S)
        (b : ℕ × Option TxError × Registry) (e : TxError)
        → create_contract c ops registry tx intrinsic s ≡ some (b, s')
        → b.1 ≢ some e
    unfolding create_contract
    create_contract-succeeds registry tx intrinsic s s' b e h failed = ground arith

    call_contract-Keeps :
        (registry : Registry) (tx : Transaction) (intrinsic : ℕ) (code : List ℕ)
        → Keeps P (call_contract c ops registry tx intrinsic code)
    unfolding call_contract
    call_contract-Keeps registry tx intrinsic code s p b s' h =
        elim (Option-cases (write_call_data ops tx.recipient tx.sender tx.payload s)) [
          | inl stuck ↦ absurd (ground arith)
          | inr ((u, s₁), wrote) ↦
              let p₁ =
                write_call_data-Keeps ops P st tx.recipient tx.sender tx.payload s p u s₁ wrote in
              elim (Option-cases (run_machine c ops tx (sub64 tx.gas_limit intrinsic) code s₁)) [
                | inl stuck ↦ absurd (ground arith)
                | inr ((r, s₂), ran) ↦
                    let p₂ =
                      run_machine-Keeps tx (sub64 tx.gas_limit intrinsic) code s₁ p₁ r s₂ ran in
                    elim (Option-cases (settle_amm ops registry tx.recipient tx.sender s₂)) [
                      | inl stuck ↦ ground arith
                      | inr ((v, s₃), settled) ↦ ground (
                        arith,
                        settle_amm-Keeps ops P st registry tx.recipient tx.sender s₂ p₂ v s₃
                            settled,
                      )
                    ]
              ]
        ]

    -- The call of the system address.
    system_call-Keeps :
        (registry : Registry) (height : ℕ) (tx : Transaction) (intrinsic : ℕ) (s : S)
        → P s
        → (tx.recipient == htlc_system_address) && ltb 0 (length tx.payload) ≡ true
        → (b : ℕ × Option TxError × Registry) (s' : S)
        → run_call c ops registry height tx intrinsic s ≡ some (b, s')
        → P s'
    unfolding run_call
    system_call-Keeps registry height tx intrinsic s p system b s' h =
        elim (Option-cases (write_call_data ops tx.recipient tx.sender tx.payload s)) [
          | inl stuck ↦ absurd (ground arith)
          | inr ((u, s₁), wrote) ↦
              let p₁ =
                write_call_data-Keeps ops P st tx.recipient tx.sender tx.payload s p u s₁ wrote in
              elim (Option-cases (process_htlc ops c.sha256 height tx s₁)) [
                | inl stuck ↦ absurd (ground arith)
                | inr ((v, s₂), ran) ↦
                    ground (arith, process_htlc-Keeps ops P st c.sha256 height tx s₁ p₁ v s₂ ran)
              ]
        ]

    -- A call that fails has set no code, and has done nothing but what keeps `P`.
    pub run_call-failed-Keeps :
        (registry : Registry) (height : ℕ) (tx : Transaction) (intrinsic : ℕ) (s s' : S)
        (b : ℕ × Option TxError × Registry) (e : TxError)
        → P s
        → run_call c ops registry height tx intrinsic s ≡ some (b, s')
        → b.1 ≡ some e
        → P s'
    unfolding run_call
    run_call-failed-Keeps registry height tx intrinsic s s' b e p h failed =
        elim (Bool-cases ((tx.recipient == htlc_system_address) && ltb 0 (length tx.payload))) [
          | inl system ↦ system_call-Keeps registry height tx intrinsic s p system b s' h
          | inr other ↦ elim (Option-cases (ops.get_account tx.recipient s)) [
            | inl nobody ↦ ground (arith, create_contract-succeeds registry tx intrinsic s s' b e)
            | inr (acct, there) ↦ elim (Option-cases (ops.get_code acct.code_hash s)) [
              | inl no_code ↦
                  ground (arith, create_contract-succeeds registry tx intrinsic s s' b e)
              | inr (code, stored) ↦ ground (
                arith,
                create_contract-succeeds registry tx intrinsic s s' b e,
                call_contract-Keeps registry tx intrinsic code s p b s',
              )
            ]
          ]
        ]
