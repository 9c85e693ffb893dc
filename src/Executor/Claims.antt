-- ===== src/Executor/Claims.antt =====
-- HTLC claims and refunds on the ledger: who is paid, and what a claim leaves.
use tylium.Prelude.{
  false, ℕ, ◌%◌, ◌<◌, Bool, false, none, some, List, ◌≡◌, ◌≢◌, arith, ◌==◌, ==_self, ==_ne,
  Option-cases, inl, inr,
}
use tylium.Prelude.Words.{add64}
use tylium.Bytes.{from_be}
use tylium.Types.{Transaction}
use tylium.State.Ledger.{Ledger, ledger_ops}
use tylium.Executor.Slots.{read_storage, write_storage}
use tylium.Executor.Htlc.{base_of, pay_out, claim, refund, not_pending, word_bytes}

-- A slot of the system account, as the handler reads it.
abbrev pub system_slot : ℕ → Ledger → ℕ
system_slot k s = s.view.slots 1 k % 18446744073709551616

module _ (sha256 : List ℕ → ℕ) where
  -- What a successful claim has found.
  pub record Entitled (caller : ℕ) (s : Ledger) : Type 0 where
    pub exists : system_slot 101 s < system_slot 0 s
    pub pending : system_slot (add64 (base_of (system_slot 101 s)) 8) s ≡ 0
    pub is_recipient : caller ≡ system_slot (add64 (base_of (system_slot 101 s)) 1) s
    pub preimage :
        sha256 (
          word_bytes
            (system_slot 102 s)
            (system_slot 104 s)
            (system_slot 105 s)
            (system_slot 106 s))
        ≡ from_be (
            word_bytes
              (system_slot (add64 (base_of (system_slot 101 s)) 3) s)
              (system_slot (add64 (base_of (system_slot 101 s)) 4) s)
              (system_slot (add64 (base_of (system_slot 101 s)) 5) s)
              (system_slot (add64 (base_of (system_slot 101 s)) 6) s))

  -- A claim succeeds only for a contract that exists and is pending, from its recipient, and with a
  -- preimage whose SHA-256 is the lock's hash.
  pub claim-Entitled :
      (tx : Transaction) (caller : ℕ) (s s' : Ledger)
      → claim (ledger_ops sha256) sha256 tx caller s ≡ some (none, s')
      → Entitled caller s
  unfolding claim read_storage
  claim-Entitled tx caller s s' h = record {
    exists = ground arith;
    pending = ground arith;
    is_recipient = ground arith;
    preimage = ground arith;
  }

  pub pay_out-slots :
      (a v : ℕ) (b : Bool) (s s' : Ledger)
      → pay_out (ledger_ops sha256) sha256 a v s ≡ some (b, s')
      → s'.view.slots ≡ s.view.slots
  unfolding pay_out
  pay_out-slots a v b s s' h = ground arith

  -- The slots of one contract are apart.
  pub slots-apart : (base i j : ℕ) → i < j → j < 14 → (add64 base j == add64 base i) ≡ false
  slots-apart base i j lower small = ==_ne (add64 base j) (add64 base i) λ same. omega arith

  -- Below this the slots of a contract do not wrap around.
  pub base-far :
      (id i k : ℕ)
      → id < 1000000000000000000
      → i < 14
      → k < 10000
      → (add64 (base_of id) i == k) ≡ false
  base-far id i k small inside low = ==_ne (add64 (base_of id) i) k λ same. omega arith

  pub record Closed (s s' : Ledger) : Type 0 where
    pub status : system_slot (add64 (base_of (system_slot 101 s)) 8) s' ≡ 1
    pub id : system_slot 101 s' ≡ system_slot 101 s
    pub counter : system_slot 0 s' ≡ system_slot 0 s

  pub claim-Closed :
      (tx : Transaction) (caller : ℕ) (s s' : Ledger)
      → system_slot 101 s < 1000000000000000000
      → claim (ledger_ops sha256) sha256 tx caller s ≡ some (none, s')
      → Closed s s'
  unfolding claim read_storage write_storage
  claim-Closed tx caller s s' small h =
      let base = base_of (system_slot 101 s) in
      let amount = system_slot (add64 base 2) s in
      elim (Option-cases (pay_out (ledger_ops sha256) sha256 tx.sender amount s)) [
        | inl stuck ↦ absurd (ground arith)
        | inr ((paid, t), ran) ↦
            let same = pay_out-slots tx.sender amount paid s t ran in
            record {
              status = ground (
                arith,
                same,
                ==_self (add64 base 8),
                slots-apart base 8 9 (omega arith) (omega arith),
                slots-apart base 8 10 (omega arith) (omega arith),
                slots-apart base 8 11 (omega arith) (omega arith),
                slots-apart base 8 12 (omega arith) (omega arith),
              );
              id = ground (
                arith,
                same,
                base-far (system_slot 101 s) 8 101 small (omega arith) (omega arith),
                base-far (system_slot 101 s) 9 101 small (omega arith) (omega arith),
                base-far (system_slot 101 s) 10 101 small (omega arith) (omega arith),
                base-far (system_slot 101 s) 11 101 small (omega arith) (omega arith),
                base-far (system_slot 101 s) 12 101 small (omega arith) (omega arith),
              );
              counter = ground (
                arith,
                same,
                base-far (system_slot 101 s) 8 0 small (omega arith) (omega arith),
                base-far (system_slot 101 s) 9 0 small (omega arith) (omega arith),
                base-far (system_slot 101 s) 10 0 small (omega arith) (omega arith),
                base-far (system_slot 101 s) 11 0 small (omega arith) (omega arith),
                base-far (system_slot 101 s) 12 0 small (omega arith) (omega arith),
              );
            }
      ]

  pub claim-NotPending :
      (tx : Transaction) (caller : ℕ) (s : Ledger)
      → system_slot 101 s < system_slot 0 s
      → system_slot (add64 (base_of (system_slot 101 s)) 8) s ≢ 0
      → claim (ledger_ops sha256) sha256 tx caller s ≡ some (some not_pending, s)
  unfolding claim read_storage
  claim-NotPending tx caller s there closed = ground arith

  pub refund-NotPending :
      (height : ℕ) (tx : Transaction) (caller : ℕ) (s : Ledger)
      → system_slot 101 s < system_slot 0 s
      → system_slot (add64 (base_of (system_slot 101 s)) 8) s ≢ 0
      → refund (ledger_ops sha256) sha256 height tx caller s ≡ some (some not_pending, s)
  unfolding refund read_storage
  refund-NotPending height tx caller s there closed = ground arith
