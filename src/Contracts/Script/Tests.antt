-- ===== src/Contracts/Script/Tests.antt =====
-- A script with a jump to a label.
use tylium.Prelude.{List, ◌≡◌, refl, [], ◌∷◌, ◌++◌, none, some, length}
use tylium.Bytes.{be, same_bytes}
use tylium.Contracts.Asm.{min_bytes}
use tylium.Contracts.Script.Source.{Text, Element, label, push, op, no_names}
use tylium.Contracts.Script.Emit.{assemble, settle}
use tylium.Contracts.Script.Placed.{Split, assemble-Placed}

-- One token to a line, and no numbers.
abbrev plain : Text
plain = record {
  fields = λ line. line ∷ [];
  equal_fold = same_bytes;
  to_upper = λ s. s;
  parse_uint = λ s b. none;
}

-- "PUSH @a", "JUMP", "a:" and "HALT".
abbrev to_label : List Element
to_label = push 1 (64 ∷ 97 ∷ []) ∷ op 2 0x30 ∷ []

abbrev halting : List Element
halting = op 4 0 ∷ []

abbrev jumping : List Element
jumping = to_label ++ (label 3 (97 ∷ []) ∷ halting)

assemble-Placed_example :
    (s : Split plain no_names
      (settle plain no_names 20 jumping no_names)
      to_label
      (label 3 (97 ∷ []) ∷ halting)
      (1 ∷ 1 ∷ 4 ∷ 0x30 ∷ 0 ∷ []))
    × (settle plain no_names 20 jumping no_names (97 ∷ []) ≡ some (length s.front_code))
unfolding assemble settle same_bytes min_bytes be
assemble-Placed_example =
    assemble-Placed plain no_names 3 (97 ∷ []) to_label halting (1 ∷ 1 ∷ 4 ∷ 0x30 ∷ 0 ∷ []) refl
      refl
