-- ===== src/Swap/Words.antt =====
-- The four words of a hash in call data (internal/swap/daemon.go) and in slots (internal/executor).
use tylium.Prelude.{
  ℕ, ◌*◌, ◌^◌, ◌<◌, List, [], ◌∷◌, ◌++◌, take, drop, length, length-take, length-drop, All, ◌≡◌,
  refl, ap, ◌∙◌, arith,
}
use mathlib.Core.Path.{ap₂, subst}
use tylium.Bytes.{be, from_be}
use tylium.Bytes.Laws.{IsByte, be-All, length-be, from_be-be, be-from_be, from_be-lt}
use tylium.Encoding.Fields.{slice-All}
use tylium.Contracts.Asm.{pack_call_data}
use tylium.State.Ops.{StateOps}
use tylium.Executor.Slots.{write_args, next_slot}
use tylium.Executor.Htlc.{word_bytes}
use tylium.Swap.Submit.{word}

-- The arguments one after the other, in the slots from `slot` on.
unfoldable pub write_words : {S : Type 0} → StateOps S → ℕ → ℕ → List ℕ → S → S
write_words ops contract slot [] s = s
write_words ops contract slot (v ∷ vs) s =
    write_words ops contract (next_slot ops slot) vs (ops.set_storage contract slot v s)

pub write_args-pack_call_data :
    {S : Type 0} (ops : StateOps S) (contract slot : ℕ) (args : List ℕ) (s : S)
    → All (λ v. v < 256 ^ 8) args
    → write_args ops contract slot (pack_call_data args) s ≡ write_words ops contract slot args s
unfolding write_args pack_call_data write_words be
write_args-pack_call_data ops contract slot [] s fit = refl
write_args-pack_call_data ops contract slot (v ∷ vs) s (fits, fit) =
    ap
      (λ x.
        write_args ops contract (next_slot ops slot) (pack_call_data vs)
          (ops.set_storage contract slot x s))
      (from_be-be 8 v fits)
    ∙ write_args-pack_call_data ops contract (next_slot ops slot) vs
        (ops.set_storage contract slot v s) fit

abbrev chunk : ℕ → ℕ → List ℕ
chunk i h = take 8 (drop (8 * i) (be 32 h))

chunk-All : (i h : ℕ) → All IsByte (chunk i h)
chunk-All i h = slice-All (8 * i) 8 (be 32 h) (be-All 32 h)

length-chunk : (i h : ℕ) → i < 4 → length (chunk i h) ≡ 8
length-chunk i h inside =
    omega
      (arith, length-take 8 (drop (8 * i) (be 32 h)), length-drop (8 * i) (be 32 h), length-be 32 h)

pub word-lt : (i h : ℕ) → i < 4 → word i h < 256 ^ 8
unfolding word
word-lt i h inside =
    subst (λ n. from_be (chunk i h) < 256 ^ n) (length-chunk i h inside)
      (from_be-lt (chunk i h) (chunk-All i h))

be-word : (i h : ℕ) → i < 4 → be 8 (word i h) ≡ chunk i h
unfolding word
be-word i h inside =
    subst (λ n. be n (from_be (chunk i h)) ≡ chunk i h) (length-chunk i h inside)
      (be-from_be (chunk i h) (chunk-All i h))

-- The four words together are the hash.
pub word_bytes-word :
    (h : ℕ) → h < 256 ^ 32 → from_be (word_bytes (word 0 h) (word 1 h) (word 2 h) (word 3 h)) ≡ h
word_bytes-word h fits =
    ap from_be (
      ap₂ ◌++◌ (be-word 0 h (omega arith)) (
        ap₂ ◌++◌ (be-word 1 h (omega arith))
          (ap₂ ◌++◌ (be-word 2 h (omega arith)) (be-word 3 h (omega arith))))
      ∙ whole)
    ∙ from_be-be 32 h fits
  where
    whole : chunk 0 h ++ (chunk 1 h ++ (chunk 2 h ++ chunk 3 h)) ≡ be 32 h
    whole = unfold be in refl
