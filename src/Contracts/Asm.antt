-- ===== src/Contracts/Asm.antt =====
-- contracts/asm.go and calldata.go.
use tylium.Prelude.{ℕ, zero, suc, ◌/◌, ◌+◌, List, [], ◌∷◌, ◌++◌, ◌==◌, length, if◌then◌else◌}
use tylium.Bytes.{be}

pub record Asm : Type 0 where
  pub code : List ℕ

abbrev pub new_asm : Asm
new_asm = record { code = [] }

unfoldable pub emit : List ℕ → Asm → Asm
emit bytes a = record { code = a.code ++ bytes }

-- The opcode as the byte that it is: `Op`, and the methods that are named after an instruction.
unfoldable pub op : ℕ → Asm → Asm
unfolding emit
op byte a = emit (byte ∷ []) a

-- The rounds of `v >>= 8` until it is zero; a uint64 has eight bytes.
unfoldable pub min_bytes : ℕ → ℕ → ℕ
min_bytes zero v = 0
min_bytes (suc rounds) v = let rest = min_bytes rounds (v / 256) in if v == 0 then 0 else 1 + rest

-- `Push`: the length byte, then the value in as few bytes as it has, but one for zero.
unfoldable pub push : ℕ → Asm → Asm
unfolding emit
push v a =
    if v == 0 then emit (1 ∷ 1 ∷ 0 ∷ []) a else emit (1 ∷ min_bytes 8 v ∷ be (min_bytes 8 v) v) a

-- `Label`, and `Len`
abbrev pub label : Asm → ℕ
label a = length a.code

-- 0x13 is DIV, 0x02 POP, 0x21 LT and 0x22 NOT.
unfoldable pub require_non_zero : Asm → Asm
unfolding op push
require_non_zero a = op 0x02 (op 0x13 (push 1 a))

unfoldable pub require_lte : Asm → Asm
unfolding op push
require_lte a = op 0x02 (op 0x13 (push 1 (op 0x22 (op 0x21 a))))

-- `PackCallData`: eight bytes for each argument.
unfoldable pub pack_call_data : List ℕ → List ℕ
pack_call_data [] = []
pack_call_data (arg ∷ args) = be 8 arg ++ pack_call_data args
