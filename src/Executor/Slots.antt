-- ===== src/Executor/Slots.antt =====
-- internal/executor: contract storage as slots of uint64, and the call data in them.
use tylium.Prelude.{ℕ, ◌+◌, ◌%◌, some, List, [], ◌∷◌, ◌==◌, if◌then◌else◌}
use tylium.Bytes.{from_be}
use tylium.Types.{caller_id}
use tylium.State.Ops.{StateOps, M, ◌>>◌, modify}

module _ {S : Type 0} (ops : StateOps S) where
  -- `readStorageUint64`: the slot's number is the key, and the low eight bytes are the value.
  unfoldable pub read_storage : ℕ → ℕ → M S ℕ
  read_storage addr slot s =
      let r = ops.get_storage addr slot s in some (r.0 % 18446744073709551616, r.1)

  unfoldable pub write_storage : ℕ → ℕ → ℕ → M S (Unit {0})
  write_storage addr slot v = modify (ops.set_storage addr slot v)

  -- Slot 103 is kept for the caller.
  abbrev pub next_slot : ℕ → ℕ
  next_slot slot = if slot + 1 == 103 then 104 else slot + 1

  -- The loop over whole groups of eight bytes.
  unfoldable pub write_args : ℕ → ℕ → List ℕ → S → S
  write_args contract slot (b₀ ∷ b₁ ∷ b₂ ∷ b₃ ∷ b₄ ∷ b₅ ∷ b₆ ∷ b₇ ∷ rest) s =
      write_args contract (next_slot slot) rest
        (ops.set_storage contract slot (from_be (b₀ ∷ b₁ ∷ b₂ ∷ b₃ ∷ b₄ ∷ b₅ ∷ b₆ ∷ b₇ ∷ [])) s)
  write_args contract slot _ s = s

  unfoldable pub write_call_data : ℕ → ℕ → List ℕ → M S (Unit {0})
  unfolding write_args
  write_call_data contract caller bytes = do
    modify (write_args contract 100 bytes)
    modify (ops.set_storage contract 103 (caller_id caller))
