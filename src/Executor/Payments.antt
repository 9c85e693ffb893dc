-- ===== src/Executor/Payments.antt =====
-- HTLC claims and refunds on the ledger: when a refund is due, and what a claim pays.
use tylium.Prelude.{
  ◌≤◌, true, false, ℕ, ◌<◌, Bool, false, none, some, List, ◌≡◌, ◌≢◌, ◌∙◌, arith, ==_self, ==_ne,
  Option-cases, inl, inr,
}
use tylium.Prelude.Words.{sub64, add64}
use tylium.Types.{Transaction}
use tylium.State.Ops.{get_balance}
use tylium.State.Ledger.{Ledger, ledger_ops}
use tylium.Executor.Slots.{read_storage, write_storage}
use tylium.Executor.Htlc.{base_of, pay_out, claim, refund}
use tylium.Executor.Claims.{system_slot}

module _ (sha256 : List ℕ → ℕ) where
  -- What a successful refund has found.
  pub record Refundable (height caller : ℕ) (s : Ledger) : Type 0 where
    pub exists : system_slot 101 s < system_slot 0 s
    pub pending : system_slot (add64 (base_of (system_slot 101 s)) 8) s ≡ 0
    pub is_sender : caller ≡ system_slot (add64 (base_of (system_slot 101 s)) 0) s
    pub expired : system_slot (add64 (base_of (system_slot 101 s)) 7) s ≤ height

  -- A refund succeeds only for a contract that exists and is pending, by its sender, and at a height
  -- that is not below the timelock.
  pub refund-Refundable :
      (height : ℕ) (tx : Transaction) (caller : ℕ) (s s' : Ledger)
      → refund (ledger_ops sha256) sha256 height tx caller s ≡ some (none, s')
      → Refundable height caller s
  unfolding refund read_storage
  refund-Refundable height tx caller s s' h = record {
    exists = ground arith;
    pending = ground arith;
    is_sender = ground arith;
    expired = ground arith;
  }

  -- The amount of the contract has gone from the system account to another one.
  pub record Paid (a : ℕ) (s s' : Ledger) : Type 0 where
    pub covered :
        system_slot (add64 (base_of (system_slot 101 s)) 2) s ≤ get_balance (ledger_ops sha256) 1 s
    pub taken :
        get_balance (ledger_ops sha256) 1 s'
        ≡ sub64
            (get_balance (ledger_ops sha256) 1 s)
            (system_slot (add64 (base_of (system_slot 101 s)) 2) s)
    pub given :
        get_balance (ledger_ops sha256) a s'
        ≡ add64
            (get_balance (ledger_ops sha256) a s)
            (system_slot (add64 (base_of (system_slot 101 s)) 2) s)

  pay_out-balances :
      (a v : ℕ) (s t : Ledger)
      → a ≢ 1
      → pay_out (ledger_ops sha256) sha256 a v s ≡ some (true, t)
      → (v ≤ get_balance (ledger_ops sha256) 1 s)
        × (get_balance (ledger_ops sha256) 1 t ≡ sub64 (get_balance (ledger_ops sha256) 1 s) v)
        × (get_balance (ledger_ops sha256) a t ≡ add64 (get_balance (ledger_ops sha256) a s) v)
  unfolding pay_out
  pay_out-balances a v s t other h = ground (arith, ==_self a, ==_ne a 1, ==_ne 1 a)

  -- The slots that a claim writes leave the balances alone.
  claim-balance :
      (tx : Transaction) (caller b : ℕ) (s t s' : Ledger) (paid : Bool)
      → claim (ledger_ops sha256) sha256 tx caller s ≡ some (none, s')
      → pay_out
          (ledger_ops sha256)
          sha256
          tx.sender
          (system_slot (add64 (base_of (system_slot 101 s)) 2) s)
          s
        ≡ some (paid, t)
      → (paid ≡ true) × (get_balance (ledger_ops sha256) b s' ≡ get_balance (ledger_ops sha256) b t)
  unfolding claim read_storage write_storage
  claim-balance tx caller b s t s' paid h ran = ground arith

  -- A claim that succeeds moves the contract's amount from the system account, which has it, to the
  -- claim's sender, who is not the system account.
  pub claim-Paid :
      (tx : Transaction) (caller : ℕ) (s s' : Ledger)
      → tx.sender ≢ 1
      → claim (ledger_ops sha256) sha256 tx caller s ≡ some (none, s')
      → Paid tx.sender s s'
  unfolding claim read_storage
  claim-Paid tx caller s s' other h =
      elim (Option-cases (
        pay_out (ledger_ops sha256) sha256 tx.sender
          (system_slot (add64 (base_of (system_slot 101 s)) 2) s) s)) [
            | inl stuck ↦ absurd (ground arith)
            | inr ((false, t), ran) ↦
                absurd (ground (arith, claim-balance tx caller 1 s t s' false h ran))
            | inr ((true, t), ran) ↦
                let (covered, taken, given) =
                  pay_out-balances tx.sender (system_slot (add64 (base_of (system_slot 101 s)) 2) s)
                    s t other ran in
                record {
                  covered = covered;
                  taken = (claim-balance tx caller 1 s t s' true h ran).1 ∙ taken;
                  given = (claim-balance tx caller tx.sender s t s' true h ran).1 ∙ given;
                }
          ]
