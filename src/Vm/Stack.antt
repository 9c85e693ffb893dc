-- ===== src/Vm/Stack.antt =====
-- internal/vm/stack.go: the operand stack. The list has the top of the stack at its head, so
-- that `data[len-1]` is the head and `append` is `∷`.
use tylium.Prelude.{ℕ, ◌≡◌, refl, ◌⊎◌, inl, inr, List, [], ◌∷◌, length, leb, if◌then◌else◌}

-- The errors of the machine, with what their messages print.
pub data VmError : Type 0 where
  stack_overflow stack_underflow stack_empty : VmError
  swap_underflow division_by_zero : VmError
  push_missing_length push_data_overflow : VmError
  push_invalid_length : ℕ → VmError
  jump_out_of_bounds jumpi_out_of_bounds : ℕ → VmError
  out_of_gas : ℕ → VmError
  invalid_opcode : ℕ → ℕ → VmError

pub data Result {ℓ} (A : Type ℓ) : Type ℓ where
  ok : A → Result A
  err : VmError → Result A

pub Result-cases {ℓ} :
    {A : Type ℓ} (r : Result A) → ((e : VmError) × (r ≡ err e)) ⊎ ((a : A) × (r ≡ ok a))
Result-cases (ok a) = inr (a, refl)
Result-cases (err e) = inl (e, refl)

infixl 5 ◌>>=◌
abbrev pub ◌>>=◌ {ℓ κ} : {A : Type ℓ} {B : Type κ} → Result A → (A → Result B) → Result B
ok a >>= f = f a
err e >>= f = err e

abbrev pub max_stack_depth : ℕ
max_stack_depth = 1024

unfoldable pub push : ℕ → List ℕ → Result (List ℕ)
push v s = if leb max_stack_depth (length s) then err stack_overflow else ok (v ∷ s)

unfoldable pub pop : List ℕ → Result (ℕ × List ℕ)
pop [] = err stack_underflow
pop (v ∷ s) = ok (v, s)

unfoldable pub peek : List ℕ → Result ℕ
peek [] = err stack_empty
peek (v ∷ s) = ok v

-- `pop2` of internal/vm/vm.go: the top first.
unfoldable pub pop2 : List ℕ → Result (ℕ × ℕ × List ℕ)
unfolding pop
pop2 s = do (a, s₁) ← pop s; (b, s₂) ← pop s₁; ok (a, b, s₂)

-- The two `Pop`s of SWAP, whose error message has a prefix.
unfoldable pub pop_swap : List ℕ → Result (ℕ × List ℕ)
pop_swap [] = err swap_underflow
pop_swap (v ∷ s) = ok (v, s)
