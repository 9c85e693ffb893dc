-- ===== src/Executor/Once.antt =====
-- internal/executor/htlc.go: a claimed HTLC stays claimed, whatever calls of the system follow.
use tylium.Prelude.{
  ℕ, ◌≤◌, ◌<◌, ◌≢◌, ◌≡◌, none, some, List, length, ◌⊎◌, inl, inr, sym, ap, ◌∙◌, arith,
}
use tylium.Prelude.Words.{add64}
use tylium.Types.{Transaction}
use tylium.State.Ledger.{Ledger, ledger_ops}
use tylium.Executor.Slots.{read_storage, write_call_data}
use tylium.Executor.Htlc.{Verdict, base_of, claim, refund, process_htlc, not_pending}
use tylium.Executor.Claims.{
  system_slot, Closed, claim-Closed, Entitled, claim-Entitled, claim-NotPending, refund-NotPending,
}
use tylium.Executor.Apart.{write_call_data-apart}
use tylium.Executor.Claimed.{Claimed, process_htlc-Claimed}

module _ (sha256 : List ℕ → ℕ) where
  -- What can come after a claim: calls of the system, at most 10 ^ 18 HTLCs before them and at most
  -- 65,536 bytes of call data to each, and anything that leaves the slots of the system as they are.
  pub data Later (s : Ledger) : Ledger → Type 0 where
    now : Later s s
    called :
        {t t₁ t' : Ledger}
        → Later s t
        → (caller height : ℕ) (bytes : List ℕ) (tx : Transaction) (v : Verdict)
        → length bytes ≤ 65536
        → system_slot 0 t < 1000000000000000000
        → write_call_data (ledger_ops sha256) 1 caller bytes t ≡ some (tt, t₁)
        → process_htlc (ledger_ops sha256) sha256 height tx t₁ ≡ some (v, t')
        → Later s t'
    elsewhere : {t t' : Ledger} → Later s t → t'.view.slots 1 ≡ t.view.slots 1 → Later s t'

  write_call_data-Claimed :
      (id caller : ℕ) (bytes : List ℕ) (s s₁ : Ledger)
      → id < 1000000000000000000
      → length bytes ≤ 65536
      → write_call_data (ledger_ops sha256) 1 caller bytes s ≡ some (tt, s₁)
      → Claimed id s
      → Claimed id s₁
  write_call_data-Claimed id caller bytes s s₁ small short wrote there = record {
    exists = omega (
      arith,
      there.exists,
      write_call_data-apart sha256 caller bytes 0 s s₁ short (inl (omega arith)) wrote,
    );
    status =
        write_call_data-apart sha256 caller bytes (add64 (base_of id) 8) s s₁ short
          (inr (omega arith)) wrote
        ∙ there.status;
  }

  Later-Claimed :
      (id : ℕ) {s t : Ledger} → id < 1000000000000000000 → Claimed id s → Later s t → Claimed id t
  Later-Claimed id small there now = there
  Later-Claimed id small there (elsewhere l same) =
      let c = Later-Claimed id small there l in
      record { exists = ground (arith, c.exists, same); status = ground (arith, c.status, same) }
  Later-Claimed id small there
        (called {t} {t₁} l caller height bytes tx v short counted wrote ran) =
      let c = Later-Claimed id small there l in
      process_htlc-Claimed sha256 id t₁
        (write_call_data-Claimed id caller bytes t t₁ small short wrote c)
        (omega (
          arith,
          counted,
          write_call_data-apart sha256 caller bytes 0 t t₁ short (inl (omega arith)) wrote,
        ))
        height tx v _ ran

  process_htlc-claim :
      (height : ℕ) (tx : Transaction) (s : Ledger)
      → system_slot 100 s ≡ 2
      → process_htlc (ledger_ops sha256) sha256 height tx s
        ≡ claim (ledger_ops sha256) sha256 tx (system_slot 103 s) s
  unfolding process_htlc read_storage
  process_htlc-claim height tx s selector = ground arith

  process_htlc-refund :
      (height : ℕ) (tx : Transaction) (s : Ledger)
      → system_slot 100 s ≡ 3
      → process_htlc (ledger_ops sha256) sha256 height tx s
        ≡ refund (ledger_ops sha256) sha256 height tx (system_slot 103 s) s
  unfolding process_htlc read_storage
  process_htlc-refund height tx s selector = ground arith

  claim-Claimed_after :
      (height : ℕ) (tx : Transaction) (s s' : Ledger)
      → system_slot 101 s < 1000000000000000000
      → system_slot 100 s ≡ 2
      → process_htlc (ledger_ops sha256) sha256 height tx s ≡ some (none, s')
      → Claimed (system_slot 101 s) s'
  claim-Claimed_after height tx s s' small selector ran =
      let done = sym (process_htlc-claim height tx s selector) ∙ ran in
      let after : Closed sha256 s s' = claim-Closed sha256 tx (system_slot 103 s) s s' small done in
      let e : Entitled sha256 (system_slot 103 s) s =
        claim-Entitled sha256 tx (system_slot 103 s) s s' done in
      record { exists = omega (arith, after.counter, e.exists); status = after.status }

  -- The last call: a claim or a refund of an HTLC that is claimed.
  settled_again :
      (id height : ℕ) (tx : Transaction) (s : Ledger)
      → Claimed id s
      → system_slot 101 s ≡ id
      → (system_slot 100 s ≡ 2) ⊎ (system_slot 100 s ≡ 3)
      → process_htlc (ledger_ops sha256) sha256 height tx s ≡ some (some not_pending, s)
  settled_again id height tx s c named selector =
      let there : system_slot 101 s < system_slot 0 s = omega (arith, named, c.exists) in
      let closed : system_slot (add64 (base_of (system_slot 101 s)) 8) s ≢ 0 =
        λ e. omega (arith, e, c.status, ap (λ k. system_slot (add64 (base_of k) 8) s) named) in
      elim selector [
        | inl is_claim ↦
            process_htlc-claim height tx s is_claim
            ∙ claim-NotPending sha256 tx (system_slot 103 s) s there closed
        | inr is_refund ↦
            process_htlc-refund height tx s is_refund
            ∙ refund-NotPending sha256 height tx (system_slot 103 s) s there closed
      ]

  -- Once a claim of an HTLC has succeeded, every later call of the system that claims or refunds this
  -- HTLC is refused as not pending and changes nothing, whoever sends it and at whatever height: later
  -- is after any calls of the system, and whatever else leaves its slots as they are. The call data of
  -- each call have at most 65,536 bytes, and the identifier and the counter are below 10 ^ 18.
  pub claim-once :
      (height : ℕ) (tx : Transaction) (s s' t t₁ : Ledger)
      → system_slot 101 s < 1000000000000000000
      → system_slot 100 s ≡ 2
      → process_htlc (ledger_ops sha256) sha256 height tx s ≡ some (none, s')
      → Later s' t
      → (height' caller : ℕ) (bytes : List ℕ) (tx' : Transaction) → length bytes ≤ 65536
      → write_call_data (ledger_ops sha256) 1 caller bytes t ≡ some (tt, t₁)
      → system_slot 101 t₁ ≡ system_slot 101 s
      → (system_slot 100 t₁ ≡ 2) ⊎ (system_slot 100 t₁ ≡ 3)
      → process_htlc (ledger_ops sha256) sha256 height' tx' t₁ ≡ some (some not_pending, t₁)
  claim-once height tx s s' t t₁ small selector ran later height' caller bytes tx' short wrote named
        again =
      settled_again (system_slot 101 s) height' tx' t₁
        (write_call_data-Claimed (system_slot 101 s) caller bytes t t₁ small short wrote (
          Later-Claimed (system_slot 101 s) small
            (claim-Claimed_after height tx s s' small selector ran) later))
        named again
