-- ===== src/Executor/Locks.antt =====
-- HTLC locks on the ledger: the record that a lock leaves.
use tylium.Prelude.{ℕ, ◌%◌, ◌<◌, false, none, some, List, ◌≡◌, arith, ◌==◌, ==_self, ==_ne}
use tylium.Prelude.Words.{add64}
use tylium.Types.{Transaction}
use tylium.State.Ledger.{Ledger, ledger_ops}
use tylium.Executor.Slots.{read_storage, write_storage}
use tylium.Executor.Htlc.{base_of, lock, process_htlc}
use tylium.Executor.Claims.{system_slot, slots-apart}

-- The next identifier is taken, and its slots hold the call.
pub record Opened (tx : Transaction) (caller : ℕ) (s s' : Ledger) : Type 0 where
  pub sender : system_slot (add64 (base_of (system_slot 0 s)) 0) s' ≡ caller % 18446744073709551616
  pub recipient : system_slot (add64 (base_of (system_slot 0 s)) 1) s' ≡ system_slot 101 s
  pub amount :
      system_slot (add64 (base_of (system_slot 0 s)) 2) s' ≡ tx.value % 18446744073709551616
  pub word_0 : system_slot (add64 (base_of (system_slot 0 s)) 3) s' ≡ system_slot 104 s
  pub word_1 : system_slot (add64 (base_of (system_slot 0 s)) 4) s' ≡ system_slot 105 s
  pub word_2 : system_slot (add64 (base_of (system_slot 0 s)) 5) s' ≡ system_slot 106 s
  pub word_3 : system_slot (add64 (base_of (system_slot 0 s)) 6) s' ≡ system_slot 107 s
  pub timelock : system_slot (add64 (base_of (system_slot 0 s)) 7) s' ≡ system_slot 102 s
  pub status : system_slot (add64 (base_of (system_slot 0 s)) 8) s' ≡ 0

module _ (sha256 : List ℕ → ℕ) where
  -- A call whose selector is that of a lock, with the caller in slot 103.
  pub process_htlc-lock :
      (height : ℕ) (tx : Transaction) (s : Ledger)
      → system_slot 100 s ≡ 1
      → process_htlc (ledger_ops sha256) sha256 height tx s
        ≡ lock (ledger_ops sha256) sha256 height tx (system_slot 103 s) s
  unfolding process_htlc read_storage
  process_htlc-lock height tx s selector = ground arith

  -- A lock that succeeds writes the record of the next identifier, which is below 10 ^ 18: the
  -- caller, the value, and the recipient, the hash and the timelock of the call data; as pending.
  pub lock-Opened :
      (height : ℕ) (tx : Transaction) (caller : ℕ) (s s' : Ledger)
      → system_slot 0 s < 1000000000000000000
      → lock (ledger_ops sha256) sha256 height tx caller s ≡ some (none, s')
      → Opened tx caller s s'
  unfolding lock read_storage write_storage
  lock-Opened height tx caller s s' small h = record {
    sender = ground (
      arith,
      ==_self (add64 base 0),
      far 0 (omega arith),
      slots-apart sha256 base 0 1 (omega arith) (omega arith),
      slots-apart sha256 base 0 2 (omega arith) (omega arith),
      slots-apart sha256 base 0 3 (omega arith) (omega arith),
      slots-apart sha256 base 0 4 (omega arith) (omega arith),
      slots-apart sha256 base 0 5 (omega arith) (omega arith),
      slots-apart sha256 base 0 6 (omega arith) (omega arith),
      slots-apart sha256 base 0 7 (omega arith) (omega arith),
      slots-apart sha256 base 0 8 (omega arith) (omega arith),
    );
    recipient = ground (
      arith,
      ==_self (add64 base 1),
      far 1 (omega arith),
      slots-apart sha256 base 1 2 (omega arith) (omega arith),
      slots-apart sha256 base 1 3 (omega arith) (omega arith),
      slots-apart sha256 base 1 4 (omega arith) (omega arith),
      slots-apart sha256 base 1 5 (omega arith) (omega arith),
      slots-apart sha256 base 1 6 (omega arith) (omega arith),
      slots-apart sha256 base 1 7 (omega arith) (omega arith),
      slots-apart sha256 base 1 8 (omega arith) (omega arith),
    );
    amount = ground (
      arith,
      ==_self (add64 base 2),
      far 2 (omega arith),
      slots-apart sha256 base 2 3 (omega arith) (omega arith),
      slots-apart sha256 base 2 4 (omega arith) (omega arith),
      slots-apart sha256 base 2 5 (omega arith) (omega arith),
      slots-apart sha256 base 2 6 (omega arith) (omega arith),
      slots-apart sha256 base 2 7 (omega arith) (omega arith),
      slots-apart sha256 base 2 8 (omega arith) (omega arith),
    );
    word_0 = ground (
      arith,
      ==_self (add64 base 3),
      far 3 (omega arith),
      slots-apart sha256 base 3 4 (omega arith) (omega arith),
      slots-apart sha256 base 3 5 (omega arith) (omega arith),
      slots-apart sha256 base 3 6 (omega arith) (omega arith),
      slots-apart sha256 base 3 7 (omega arith) (omega arith),
      slots-apart sha256 base 3 8 (omega arith) (omega arith),
    );
    word_1 = ground (
      arith,
      ==_self (add64 base 4),
      far 4 (omega arith),
      slots-apart sha256 base 4 5 (omega arith) (omega arith),
      slots-apart sha256 base 4 6 (omega arith) (omega arith),
      slots-apart sha256 base 4 7 (omega arith) (omega arith),
      slots-apart sha256 base 4 8 (omega arith) (omega arith),
    );
    word_2 = ground (
      arith,
      ==_self (add64 base 5),
      far 5 (omega arith),
      slots-apart sha256 base 5 6 (omega arith) (omega arith),
      slots-apart sha256 base 5 7 (omega arith) (omega arith),
      slots-apart sha256 base 5 8 (omega arith) (omega arith),
    );
    word_3 = ground (
      arith,
      ==_self (add64 base 6),
      far 6 (omega arith),
      slots-apart sha256 base 6 7 (omega arith) (omega arith),
      slots-apart sha256 base 6 8 (omega arith) (omega arith),
    );
    timelock = ground (
      arith,
      ==_self (add64 base 7),
      far 7 (omega arith),
      slots-apart sha256 base 7 8 (omega arith) (omega arith),
    );
    status = ground (arith, ==_self (add64 base 8), far 8 (omega arith));
  }
    where
      base : ℕ
      base = base_of (system_slot 0 s)

      far : (i : ℕ) → i < 14 → (200 == add64 base i) ≡ false
      far i inside = ==_ne 200 (add64 base i) λ same. omega arith
