-- ===== src/Executor/Htlc.antt =====
-- internal/executor/htlc.go: hashed timelock contracts, run natively at a system address.
use tylium.Prelude.{
  ℕ, Bool, true, false, Option, none, some, List, ◌++◌, ◌==◌, leb, ltb, not, if◌then◌else◌,
}
use tylium.Prelude.Words.{add64, sub64, mul64}
use tylium.Bytes.{be, from_be}
use tylium.Types.{Transaction}
use tylium.State.Ops.{StateOps, M, ◌>>=◌, ◌>>◌, pure, gets, modify, get_or_create_account}
use tylium.Executor.Slots.{read_storage, write_storage}

abbrev pub htlc_system_address : ℕ
htlc_system_address = 1

abbrev pub fn_lock : ℕ
fn_lock = 1

abbrev pub fn_claim : ℕ
fn_claim = 2

abbrev pub fn_refund : ℕ
fn_refund = 3

abbrev pub fn_query : ℕ
fn_query = 4

abbrev pub slot_counter : ℕ
slot_counter = 0

abbrev pub status_pending : ℕ
status_pending = 0

abbrev pub status_claimed : ℕ
status_claimed = 1

abbrev pub status_refunded : ℕ
status_refunded = 2

-- `htlcSlotBase + htlcID*htlcSlotStride`, in uint64.
abbrev pub base_of : ℕ → ℕ
base_of id = add64 10000 (mul64 id 14)

-- The messages of a refused call.
pub data HtlcError : Type 0 where
  unknown_function zero_amount timelock_passed : HtlcError
  does_not_exist not_pending not_recipient not_sender wrong_preimage : HtlcError
  system_balance_insufficient timelock_not_expired : HtlcError

-- `(bool, string)`: `none` is success.
abbrev pub Verdict : Type 0
Verdict = Option HtlcError

-- Four words as the 32 bytes that they are written to, and as the Hash256 of those bytes.
abbrev pub word_bytes : ℕ → ℕ → ℕ → ℕ → List ℕ
word_bytes w₀ w₁ w₂ w₃ = be 8 w₀ ++ (be 8 w₁ ++ (be 8 w₂ ++ be 8 w₃))

module _ {S : Type 0} (ops : StateOps S) (sha256 : List ℕ → ℕ) where
  abbrev pub read_slot : ℕ → M S ℕ
  read_slot slot = read_storage ops htlc_system_address slot

  abbrev pub write_slot : ℕ → ℕ → M S (Unit {0})
  write_slot slot v = write_storage ops htlc_system_address slot v

  unfoldable pub lock : ℕ → Transaction → ℕ → M S Verdict
  unfolding read_storage write_storage
  lock height tx sender_id = do
    recipient_id ← read_slot 101
    timelock ← read_slot 102
    hw₀ ← read_slot 104
    hw₁ ← read_slot 105
    hw₂ ← read_slot 106
    hw₃ ← read_slot 107
    if tx.value == 0
        then pure (some zero_amount)
        else if leb timelock height
        then pure (some timelock_passed)
        else (do
          id ← read_slot slot_counter
          write_slot slot_counter (add64 id 1)
          let base = base_of id
          write_slot (add64 base 0) sender_id
          write_slot (add64 base 1) recipient_id
          write_slot (add64 base 2) tx.value
          write_slot (add64 base 3) hw₀
          write_slot (add64 base 4) hw₁
          write_slot (add64 base 5) hw₂
          write_slot (add64 base 6) hw₃
          write_slot (add64 base 7) timelock
          write_slot (add64 base 8) status_pending
          write_slot 200 id
          pure none)

  -- The transfer out of the system account, on both ways out of a contract.
  unfoldable pub pay_out : ℕ → ℕ → M S Bool
  pay_out recipient amount = do
    sys ← gets (get_or_create_account ops htlc_system_address)
    if ltb sys.balance amount then pure false else (do
      modify
          (ops.set_account htlc_system_address (record sys { balance = sub64 sys.balance amount }))
      acct ← gets (get_or_create_account ops recipient)
      modify (ops.set_account recipient (record acct { balance = add64 acct.balance amount }))
      pure true)

  unfoldable pub claim : Transaction → ℕ → M S Verdict
  unfolding read_storage write_storage pay_out
  claim tx caller = do
    id ← read_slot 101
    counter ← read_slot slot_counter
    if leb counter id then pure (some does_not_exist) else (do
      pw₀ ← read_slot 102
      pw₁ ← read_slot 104
      pw₂ ← read_slot 105
      pw₃ ← read_slot 106
      let base = base_of id
      status ← read_slot (add64 base 8)
      if not (status == status_pending) then pure (some not_pending) else (do
        recipient_id ← read_slot (add64 base 1)
        if not (caller == recipient_id) then pure (some not_recipient) else (do
          hw₀ ← read_slot (add64 base 3)
          hw₁ ← read_slot (add64 base 4)
          hw₂ ← read_slot (add64 base 5)
          hw₃ ← read_slot (add64 base 6)
          if not (sha256 (word_bytes pw₀ pw₁ pw₂ pw₃) == from_be (word_bytes hw₀ hw₁ hw₂ hw₃))
              then pure (some wrong_preimage)
              else (do
                amount ← read_slot (add64 base 2)
                paid ← pay_out tx.sender amount
                if not paid then pure (some system_balance_insufficient) else (do
                  write_slot (add64 base 8) status_claimed
                  write_slot (add64 base 9) pw₀
                  write_slot (add64 base 10) pw₁
                  write_slot (add64 base 11) pw₂
                  write_slot (add64 base 12) pw₃
                  pure none)))))

  unfoldable pub refund : ℕ → Transaction → ℕ → M S Verdict
  unfolding read_storage write_storage pay_out
  refund height tx caller = do
    id ← read_slot 101
    counter ← read_slot slot_counter
    if leb counter id then pure (some does_not_exist) else (do
      let base = base_of id
      status ← read_slot (add64 base 8)
      if not (status == status_pending) then pure (some not_pending) else (do
        sender_id ← read_slot (add64 base 0)
        if not (caller == sender_id) then pure (some not_sender) else (do
          timelock ← read_slot (add64 base 7)
          if ltb height timelock then pure (some timelock_not_expired) else (do
            amount ← read_slot (add64 base 2)
            paid ← pay_out tx.sender amount
            if not paid
                then pure (some system_balance_insufficient)
                else (do write_slot (add64 base 8) status_refunded; pure none)))))

  -- `h.writeSlot(to, h.readSlot(from))`
  unfoldable pub copy_slot : ℕ → ℕ → M S (Unit {0})
  unfolding read_storage write_storage
  copy_slot to from = do v ← read_slot from; write_slot to v

  unfoldable pub query : M S Verdict
  unfolding copy_slot
  query = do
    id ← read_slot 101
    counter ← read_slot slot_counter
    if leb counter id then pure (some does_not_exist) else (do
      let base = base_of id
      copy_slot 200 (add64 base 0)
      copy_slot 201 (add64 base 1)
      copy_slot 202 (add64 base 2)
      copy_slot 203 (add64 base 7)
      copy_slot 204 (add64 base 8)
      copy_slot 205 (add64 base 9)
      copy_slot 206 (add64 base 10)
      copy_slot 207 (add64 base 11)
      copy_slot 208 (add64 base 12)
      pure none)

  unfoldable pub process_htlc : ℕ → Transaction → M S Verdict
  unfolding lock claim refund query
  process_htlc height tx = do
    selector ← read_slot 100
    caller ← read_slot 103
    if selector == fn_lock
        then lock height tx caller
        else if selector == fn_claim
        then claim tx caller
        else if selector == fn_refund
        then refund height tx caller
        else if selector == fn_query
        then query
        else pure (some unknown_function)
