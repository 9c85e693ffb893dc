-- ===== src/Executor/Rollback.antt =====
-- What a failed transaction leaves behind on the ledger.
use tylium.Prelude.{
  ℕ, true, false, Option, none, some, List, ◌∷◌, ◌≡◌, ◌≢◌, refl, sym, ◌==◌, arith, ◌⊎◌, inl, inr,
  Bool-cases, Option-cases, length, ==_self, ==_ne,
}
use mathlib.Core.Path.{subst}
use tylium.Prelude.Words.{add64, sub64, mul64}
use tylium.Types.{Transaction}
use tylium.State.Ops.{or_new}
use tylium.State.Ledger.{View, Ledger, ledger_ops, restore}
use tylium.Executor.Refusals.{
  execute_checked-cases, verified, unverified-failed, claim-ran, other-checked,
}
use tylium.Executor.Settle.{Registry}
use tylium.Executor.Keeps.{IsStable, write_call_data-Keeps}
use tylium.Executor.Keeps.Htlc.{process_htlc-Keeps}
use tylium.Executor.Keeps.Call.{charge-Keeps, credit-Keeps, run_call-failed-Keeps}
use tylium.Executor.Slots.{write_call_data}
use tylium.Executor.Htlc.{HtlcError, process_htlc}
use tylium.Executor.Execute.{
  Crypto, Receipt, TxError, is_htlc_claim, intrinsic_gas, charge, credit, revert, take_snapshot,
  run_call, execute_paid, execute_htlc_claim, execute_checked, execute_tx,
}

-- The sender has paid for the gas used and its nonce is one up; nothing else is changed.
pub record Charged (tx : Transaction) (r : Receipt) (s s' : Ledger) : Type 0 where
  pub sender :
      s'.view.accounts tx.sender
      ≡ some (
          let acct = or_new (s.view.accounts tx.sender) in
          record acct {
            nonce = add64 acct.nonce 1;
            balance = sub64 acct.balance (mul64 tx.gas_price r.gas_used);
          })
  pub others : (a : ℕ) → a ≢ tx.sender → s'.view.accounts a ≡ s.view.accounts a
  pub slots : s'.view.slots ≡ s.view.slots
  pub codes : s'.codes ≡ s.codes
  pub saved : s'.saved ≡ s.saved

-- The top of the saved views is this one, on top of those of a state, and the codes are those.
record HasSaved (v : View) (saved : List View) (codes : ℕ → Option (List ℕ)) (s : Ledger)
    : Type 0 where
  top : s.saved ≡ (v ∷ saved)
  same_codes : s.codes ≡ codes

restore-HasSaved :
    (v : View) (saved : List View) (codes : ℕ → Option (List ℕ)) (s : Ledger)
    → HasSaved v saved codes s
    → restore (length saved) s ≡ record { view = v; saved = saved; codes = codes }
restore-HasSaved v saved codes s h = ground (arith, h.top, h.same_codes)

module _ (c : Crypto) (v : View) (saved : List View) (codes : ℕ → Option (List ℕ)) where
  ledger-IsStable : IsStable (ledger_ops c.sha256) (HasSaved v saved codes)
  ledger-IsStable = record {
    set_account = λ a x s p. record { top = p.top; same_codes = p.same_codes };
    set_storage = λ a k x s p. record { top = p.top; same_codes = p.same_codes };
    get_storage = λ a k s p. p;
  }

module _ (c : Crypto) (height : ℕ) (tx : Transaction) (s : Ledger) where
  snapped : Ledger
  snapped = record s { saved = s.view ∷ s.saved }

  -- After the snapshot, whatever happened up to a state where the snapshot still stands on top: the
  -- revert and the charge behind it.
  charge-restored :
      (t s' : Ledger) (r : Receipt)
      → HasSaved s.view s.saved s.codes t
      → charge c
          (ledger_ops c.sha256)
          tx.sender
          (mul64 tx.gas_price r.gas_used)
          (restore (length s.saved) t)
        ≡ some (tt, s')
      → Charged tx r s s'
  unfolding charge
  charge-restored t s' r top h = record {
    sender = ground (arith, restore-HasSaved s.view s.saved s.codes t top, ==_self tx.sender);
    others =
        λ a i. ground (arith, restore-HasSaved s.view s.saved s.codes t top, ==_ne tx.sender a);
    slots = ground (arith, restore-HasSaved s.view s.saved s.codes t top);
    codes = ground (arith, restore-HasSaved s.view s.saved s.codes t top);
    saved = ground (arith, restore-HasSaved s.view s.saved s.codes t top);
  }

  abbrev Top : Ledger → Type 0
  Top = HasSaved s.view s.saved s.codes

  snapped-HasSaved : Top snapped
  unfolding snapped
  snapped-HasSaved = record { top = refl; same_codes = refl }

  -- What the paid path comes to when the call fails in `t`.
  execute_paid-reverted :
      (registry : Registry) (intrinsic max_cost : ℕ) (s₁ s₂ t s' : Ledger) (used : ℕ) (e : TxError)
      (r : Receipt) (registry' registry'' : Registry)
      → charge c (ledger_ops c.sha256) tx.sender max_cost snapped ≡ some (tt, s₁)
      → credit c (ledger_ops c.sha256) tx.recipient tx.value s₁ ≡ some (tt, s₂)
      → run_call c (ledger_ops c.sha256) registry height tx intrinsic s₂
        ≡ some ((used, some e, registry''), t)
      → execute_paid c (ledger_ops c.sha256) registry height tx intrinsic max_cost s
        ≡ some ((r, registry'), s')
      → (charge c
            (ledger_ops c.sha256)
            tx.sender
            (mul64 tx.gas_price r.gas_used)
            (restore (length s.saved) t)
          ≡ some (tt, s'))
        × (registry' ≡ registry)
  unfolding execute_paid snapped revert take_snapshot
  execute_paid-reverted registry intrinsic max_cost s₁ s₂ t s' used e r registry' registry'' i j k
        h =
      ground arith

  execute_paid-succeeded :
      (registry : Registry) (intrinsic max_cost : ℕ) (s₁ s₂ t s' : Ledger) (used : ℕ) (r : Receipt)
      (registry' registry'' : Registry)
      → charge c (ledger_ops c.sha256) tx.sender max_cost snapped ≡ some (tt, s₁)
      → credit c (ledger_ops c.sha256) tx.recipient tx.value s₁ ≡ some (tt, s₂)
      → run_call c (ledger_ops c.sha256) registry height tx intrinsic s₂
        ≡ some ((used, none, registry''), t)
      → execute_paid c (ledger_ops c.sha256) registry height tx intrinsic max_cost s
        ≡ some ((r, registry'), s')
      → r.success ≡ true
  unfolding execute_paid snapped revert take_snapshot
  execute_paid-succeeded registry intrinsic max_cost s₁ s₂ t s' used r registry' registry'' i j k
        h =
      ground arith

  execute_paid-failed :
      (registry : Registry) (intrinsic max_cost : ℕ) (s' : Ledger) (r : Receipt)
      (registry' : Registry)
      → execute_paid c (ledger_ops c.sha256) registry height tx intrinsic max_cost s
        ≡ some ((r, registry'), s')
      → r.success ≡ false
      → Charged tx r s s' × (registry' ≡ registry)
  unfolding execute_paid snapped revert take_snapshot
  execute_paid-failed registry intrinsic max_cost s' r registry' h failed =
      elim (Option-cases (charge c (ledger_ops c.sha256) tx.sender max_cost snapped)) [
        | inl stuck ↦ absurd (ground arith)
        | inr ((u, s₁), i) ↦
            elim (Option-cases (credit c (ledger_ops c.sha256) tx.recipient tx.value s₁)) [
              | inl stuck ↦ absurd (ground arith)
              | inr ((u', s₂), j) ↦
                  let p₂ =
                    credit-Keeps (ledger_ops c.sha256) Top
                      (ledger-IsStable c s.view s.saved s.codes) c tx.recipient tx.value s₁
                      (charge-Keeps (ledger_ops c.sha256) Top
                        (ledger-IsStable c s.view s.saved s.codes) c tx.sender max_cost snapped
                        snapped-HasSaved u s₁ i)
                      u' s₂ j in
                  elim (Option-cases
                    (run_call c (ledger_ops c.sha256) registry height tx intrinsic s₂)) [
                      | inl stuck ↦ absurd (ground arith)
                      | inr (((used, none, registry''), t), k) ↦ absurd (
                          ground (
                            arith,
                            execute_paid-succeeded registry intrinsic max_cost s₁ s₂ t s' used r
                                registry' registry'' i j k h,
                          ))
                      | inr (((used, some e, registry''), t), k) ↦
                          let p₃ =
                            run_call-failed-Keeps (ledger_ops c.sha256) Top
                              (ledger-IsStable c s.view s.saved s.codes) c registry height tx
                              intrinsic s₂ t (used, some e, registry'') e p₂ k refl in
                          let (charged, same) =
                            execute_paid-reverted registry intrinsic max_cost s₁ s₂ t s' used e r
                              registry' registry'' i j k h in
                          (charge-restored t s' r p₃ charged, same)
                    ]
            ]
      ]

  -- A claim that is run and refused by its handler in `t`.
  execute_htlc_claim-reverted :
      (s₁ s₂ t s' : Ledger) (e : HtlcError) (r : Receipt)
      → tx.value ≡ 0
      → tx.nonce ≡ (or_new (s.view.accounts tx.sender)).nonce
      → charge c (ledger_ops c.sha256) tx.sender 0 snapped ≡ some (tt, s₁)
      → write_call_data (ledger_ops c.sha256) tx.recipient tx.sender tx.payload s₁ ≡ some (tt, s₂)
      → process_htlc (ledger_ops c.sha256) c.sha256 height tx s₂ ≡ some (some e, t)
      → execute_htlc_claim c (ledger_ops c.sha256) height tx s ≡ some (r, s')
      → (charge c (ledger_ops c.sha256) tx.sender 0 (restore (length s.saved) t) ≡ some (tt, s'))
        × (r.gas_used ≡ 0)
  unfolding execute_htlc_claim snapped revert take_snapshot
  execute_htlc_claim-reverted s₁ s₂ t s' e r free next i j k h =
      ground (arith, ==_self (or_new (s.view.accounts tx.sender)).nonce)

  no_fee : (r : Receipt) → r.gas_used ≡ 0 → mul64 tx.gas_price r.gas_used ≡ 0
  no_fee r gasless = ground arith

  run_failed :
      (s' : Ledger) (r : Receipt)
      → tx.value ≡ 0
      → tx.nonce ≡ (or_new (s.view.accounts tx.sender)).nonce
      → execute_htlc_claim c (ledger_ops c.sha256) height tx s ≡ some (r, s')
      → r.success ≡ false
      → Charged tx r s s'
  unfolding execute_htlc_claim snapped revert take_snapshot
  run_failed s' r free next h failed =
      elim (Option-cases (charge c (ledger_ops c.sha256) tx.sender 0 snapped)) [
        | inl stuck ↦ absurd (ground (arith, ==_self (or_new (s.view.accounts tx.sender)).nonce))
        | inr ((u, s₁), i) ↦
            elim (Option-cases
              (write_call_data (ledger_ops c.sha256) tx.recipient tx.sender tx.payload s₁)) [
                | inl stuck ↦
                    absurd (ground (arith, ==_self (or_new (s.view.accounts tx.sender)).nonce))
                | inr ((u', s₂), j) ↦
                    let p₂ =
                      write_call_data-Keeps (ledger_ops c.sha256) Top
                        (ledger-IsStable c s.view s.saved s.codes) tx.recipient tx.sender tx.payload
                        s₁
                        (charge-Keeps (ledger_ops c.sha256) Top
                          (ledger-IsStable c s.view s.saved s.codes) c tx.sender 0 snapped
                          snapped-HasSaved u s₁ i)
                        u' s₂ j in
                    elim (Option-cases (process_htlc (ledger_ops c.sha256) c.sha256 height tx s₂)) [
                      | inl stuck ↦
                          absurd
                            (ground (arith, ==_self (or_new (s.view.accounts tx.sender)).nonce))
                      | inr ((none, t), k) ↦
                          absurd
                            (ground (arith, ==_self (or_new (s.view.accounts tx.sender)).nonce))
                      | inr ((some e, t), k) ↦
                          let p₃ =
                            process_htlc-Keeps (ledger_ops c.sha256) Top
                              (ledger-IsStable c s.view s.saved s.codes) c.sha256 height tx s₂ p₂
                              (some e) t k in
                          let (charged, gasless) =
                            execute_htlc_claim-reverted s₁ s₂ t s' e r free next i j k h in
                          charge-restored t s' r p₃ (
                            subst
                              (λ v.
                                charge c (ledger_ops c.sha256) tx.sender v
                                  (restore (length s.saved) t)
                                ≡ some (tt, s'))
                              (sym (no_fee r gasless)) charged)
                    ]
              ]
      ]

  execute_htlc_claim-failed :
      (s' : Ledger) (r : Receipt)
      → execute_htlc_claim c (ledger_ops c.sha256) height tx s ≡ some (r, s')
      → r.success ≡ false
      → (s' ≡ s) ⊎ Charged tx r s s'
  unfolding execute_htlc_claim snapped revert take_snapshot
  execute_htlc_claim-failed s' r h failed = elim (Bool-cases (tx.value == 0)) [
    | inr paid ↦ inl (ground arith)
    | inl free ↦ elim (Bool-cases (tx.nonce == (or_new (s.view.accounts tx.sender)).nonce)) [
      | inr stale ↦ inl (ground arith)
      | inl next ↦ inr (run_failed s' r (ground (arith, free)) (ground (arith, next)) h failed)
    ]
  ]

  execute_checked-failed :
      (registry : Registry) (s' : Ledger) (r : Receipt) (registry' : Registry)
      → execute_checked c (ledger_ops c.sha256) registry height tx s ≡ some ((r, registry'), s')
      → r.success ≡ false
      → ((s' ≡ s) ⊎ Charged tx r s s') × (registry' ≡ registry)
  execute_checked-failed registry s' r registry' h failed =
      elim (execute_checked-cases c (ledger_ops c.sha256) height tx registry s s' r registry' h) [
        | inl (same, same_registry) ↦ (inl same, same_registry)
        | inr ran ↦
            let (charged, same_registry) =
              execute_paid-failed registry (intrinsic_gas c (ledger_ops c.sha256) tx)
                (add64 tx.value (mul64 tx.gas_price tx.gas_limit)) s' r registry' ran failed in
            (inr charged, same_registry)
      ]

-- A transaction that fails, for whatever reason, either leaves the ledger as it was, or changes
-- only the sender's account: the nonce goes up by one and the balance down by the gas used at the
-- gas price. The registry of contracts stays as it was in both cases, and so does the stored code.
pub execute_tx-failed :
    (c : Crypto) (registry : Registry) (height : ℕ) (tx : Transaction) (s s' : Ledger) (r : Receipt)
    (registry' : Registry)
    → execute_tx c (ledger_ops c.sha256) registry height tx s ≡ some ((r, registry'), s')
    → r.success ≡ false
    → ((s' ≡ s) ⊎ Charged tx r s s') × (registry' ≡ registry)
execute_tx-failed c registry height tx s s' r registry' h failed =
    elim (Bool-cases (verified c (ledger_ops c.sha256) height tx)) [
      | inr v ↦
          let (same, same_registry) =
            unverified-failed c (ledger_ops c.sha256) height tx registry s s' r registry' v h
              failed in
          (inl same, same_registry)
      | inl v ↦ elim (Bool-cases (is_htlc_claim tx)) [
        | inr k ↦
            execute_checked-failed c height tx s registry s' r registry'
              (other-checked c (ledger_ops c.sha256) height tx registry s s' r registry' v k h)
              failed
        | inl k ↦
            let (ran, same_registry) =
              claim-ran c (ledger_ops c.sha256) height tx registry s s' r registry' v k h in
            (execute_htlc_claim-failed c height tx s s' r ran failed, same_registry)
      ]
    ]
