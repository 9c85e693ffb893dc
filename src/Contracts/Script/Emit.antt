-- ===== src/Contracts/Script/Emit.antt =====
-- contracts/script/compiler.go: the offsets of the labels, and the bytes.
use tylium.Prelude.{
  ℕ, zero, suc, ◌+◌, Bool, true, false, ◌||◌, not, Option, none, some, List, [], ◌∷◌, ◌++◌, ◌==◌,
  if◌then◌else◌,
}
use tylium.Bytes.{be}
use tylium.Contracts.Asm.{min_bytes}
use tylium.Contracts.Script.Source.{
  Text, Element, label, push, op, CompileError, duplicate_label, undefined_label,
  undefined_constant, Result, ok, err, Names, no_names, set_name, parse_value, parse_lines,
  split_lines,
}

unfoldable pub push_bytes : ℕ → List ℕ
push_bytes v = if v == 0 then 1 ∷ 1 ∷ 0 ∷ [] else 1 ∷ min_bytes 8 v ∷ be (min_bytes 8 v) v

unfoldable pub push_size : ℕ → ℕ
push_size v = if v == 0 then 3 else 2 + min_bytes 8 v

-- A label that has no offset yet counts as one of eight bytes.
unfoldable pub size_of : Option ℕ → ℕ
unfolding push_size
size_of none = 10
size_of (some v) = push_size v

-- `!existed || prev != offset`
unfoldable pub moved : Option ℕ → ℕ → Bool
moved none offset = true
moved (some prev) offset = not (prev == offset)

-- The kind of the error at an argument.
unfoldable pub undefined : ℕ → List ℕ → CompileError
undefined n [] = undefined_constant n
undefined n (c ∷ name) = if c == 64 then undefined_label n else undefined_constant n

module _ (text : Text) (consts : Names) where
  unfoldable pub value_of : List ℕ → Option ℕ
  unfolding parse_value
  value_of arg = elim (consts arg) [ some v ↦ some v | none ↦ parse_value text arg ]

  -- "@" and a label, a constant or a number. An offset is below 2 ^ 64.
  unfoldable pub resolve_arg : Names → List ℕ → Option ℕ
  unfolding value_of
  resolve_arg labels [] = value_of []
  resolve_arg labels (c ∷ name) = if c == 64 then labels name else value_of (c ∷ name)

  -- One round over the elements: the labels, and whether one has moved.
  unfoldable pub pass : List Element → Names → ℕ → Bool → Names × Bool
  unfolding resolve_arg size_of moved
  pass [] labels offset changed = (labels, changed)
  pass (label n name ∷ elems) labels offset changed =
      pass elems (set_name name offset labels) offset (changed || moved (labels name) offset)
  pass (push n arg ∷ elems) labels offset changed =
      pass elems labels (offset + size_of (resolve_arg labels arg)) changed
  pass (op n byte ∷ elems) labels offset changed = pass elems labels (offset + 1) changed

  -- At most `rounds` of them.
  unfoldable pub settle : ℕ → List Element → Names → Names
  unfolding pass
  settle zero elems labels = labels
  settle (suc rounds) elems labels =
      let r = pass elems labels 0 false in elim r.1 [ false ↦ r.0 | true ↦ settle rounds elems r.0 ]

  unfoldable pub emit : Names → List Element → Result (List ℕ)
  unfolding resolve_arg push_bytes undefined
  emit labels [] = ok []
  emit labels (label n name ∷ elems) = emit labels elems
  emit labels (push n arg ∷ elems) =
      let rest = emit labels elems in
      elim (resolve_arg labels arg) [
        | none ↦ err (undefined n arg)
        | some v ↦ elim rest [ err e ↦ err e | ok code ↦ ok (push_bytes v ++ code) ]
      ]
  emit labels (op n byte ∷ elems) =
      let rest = emit labels elems in elim rest [ err e ↦ err e | ok code ↦ ok (byte ∷ code) ]

-- The line of the second label of a name.
unfoldable pub duplicate : List Element → Names → Option ℕ
duplicate [] seen = none
duplicate (label n name ∷ elems) seen = elim (seen name) [
  | some prev ↦ some n
  | none ↦ duplicate elems (set_name name n seen)
]
duplicate (_ ∷ elems) seen = duplicate elems seen

-- `Compile` behind the parser.
unfoldable pub assemble : Text → Names → List Element → Result (List ℕ)
unfolding settle duplicate emit
assemble text consts elems = elim (duplicate elems no_names) [
  | some n ↦ err (duplicate_label n)
  | none ↦ emit text consts (settle text consts 20 elems no_names) elems
]

unfoldable pub compile : Text → List ℕ → Result (List ℕ)
unfolding split_lines parse_lines assemble
compile text source = elim (parse_lines text 1 (split_lines source) no_names []) [
  | err e ↦ err e
  | ok (consts, elems) ↦ assemble text consts elems
]
