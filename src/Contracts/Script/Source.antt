-- ===== src/Contracts/Script/Source.antt =====
-- contracts/script/compiler.go: from the source text to labels, pushes and operations. Strings are
-- their bytes; package strings and package strconv are parameters.
use tylium.Prelude.{
  ℕ, suc, Bool, true, false, ◌&&◌, ◌||◌, Option, none, some, List, [], ◌∷◌, ◌++◌, ◌==◌,
  if◌then◌else◌,
}
use tylium.Bytes.{same_bytes}

-- `strings.Fields`, `strings.EqualFold`, `strings.ToUpper`, and `strconv.ParseUint` for 64 bits with a
-- base; `none` is an error.
pub record Text : Type 0 where
  pub fields : List ℕ → List (List ℕ)
  pub equal_fold : List ℕ → List ℕ → Bool
  pub to_upper : List ℕ → List ℕ
  pub parse_uint : List ℕ → ℕ → Option ℕ

-- Each with its line. The operation is the byte that its mnemonic has in the table.
pub data Element : Type 0 where
  label push : ℕ → List ℕ → Element
  op : ℕ → ℕ → Element

pub data CompileError : Type 0 where
  const_form invalid_literal duplicate_constant empty_label push_form : ℕ → CompileError
  unknown_instruction duplicate_label undefined_label undefined_constant : ℕ → CompileError

pub data Result (A : Type 0) : Type 0 where
  ok : A → Result A
  err : CompileError → Result A

abbrev pub Names : Type 0
Names = List ℕ → Option ℕ

abbrev pub no_names : Names
no_names name = none

abbrev pub set_name : List ℕ → ℕ → Names → Names
set_name name v m k = if same_bytes name k then some v else m k

-- `opcodeTable`, whose values are bytes.
abbrev opcode_table : List (List ℕ × ℕ)
opcode_table =
    (72 ∷ 65 ∷ 76 ∷ 84 ∷ [], 0x00)
    ∷ (80 ∷ 79 ∷ 80 ∷ [], 0x02)
    ∷ (65 ∷ 68 ∷ 68 ∷ [], 0x10)
    ∷ (83 ∷ 85 ∷ 66 ∷ [], 0x11)
    ∷ (77 ∷ 85 ∷ 76 ∷ [], 0x12)
    ∷ (68 ∷ 73 ∷ 86 ∷ [], 0x13)
    ∷ (69 ∷ 81 ∷ [], 0x20)
    ∷ (76 ∷ 84 ∷ [], 0x21)
    ∷ (78 ∷ 79 ∷ 84 ∷ [], 0x22)
    ∷ (74 ∷ 85 ∷ 77 ∷ 80 ∷ [], 0x30)
    ∷ (74 ∷ 85 ∷ 77 ∷ 80 ∷ 73 ∷ [], 0x31)
    ∷ (83 ∷ 76 ∷ 79 ∷ 65 ∷ 68 ∷ [], 0x40)
    ∷ (83 ∷ 83 ∷ 84 ∷ 79 ∷ 82 ∷ 69 ∷ [], 0x41)
    ∷ []

unfoldable pub lookup : List ℕ → List (List ℕ × ℕ) → Option ℕ
lookup name [] = none
lookup name ((k, v) ∷ table) =
    let rest = lookup name table in if same_bytes name k then some v else rest

-- "PUSH" and ".const"
abbrev push_word : List ℕ
push_word = 80 ∷ 85 ∷ 83 ∷ 72 ∷ []

abbrev const_word : List ℕ
const_word = 46 ∷ 99 ∷ 111 ∷ 110 ∷ 115 ∷ 116 ∷ []

-- The text before the first byte `c`.
unfoldable pub before : ℕ → List ℕ → List ℕ
before c [] = []
before c (x ∷ xs) = let rest = before c xs in if x == c then [] else x ∷ rest

-- `strings.Split(source, "\n")`
unfoldable pub split_lines : List ℕ → List (List ℕ)
split_lines [] = [] ∷ []
split_lines (x ∷ xs) =
    let rest = split_lines xs in
    if x == 10
    then [] ∷ rest
    else elim rest [ [] ↦ (x ∷ []) ∷ [] | line ∷ lines ↦ (x ∷ line) ∷ lines ]

-- `strings.HasSuffix(s, ":")`, and the name before it.
unfoldable pub label_name : List ℕ → Option (List ℕ)
label_name [] = none
label_name (x ∷ []) = if x == 58 then some [] else none
label_name (x ∷ y ∷ xs) =
    let rest = label_name (y ∷ xs) in elim rest [ none ↦ none | some name ↦ some (x ∷ name) ]

module _ (text : Text) where
  -- A comment begins with a semicolon.
  unfoldable pub line_tokens : List ℕ → List (List ℕ)
  unfolding before
  line_tokens line = text.fields (before 59 line)

  -- Behind "0x" and "0X" the base is 16.
  unfoldable pub parse_value : List ℕ → Option ℕ
  parse_value (x ∷ y ∷ digits) =
      if x == 48 && (y == 120 || y == 88)
      then text.parse_uint digits 16
      else text.parse_uint (x ∷ y ∷ digits) 10
  parse_value s = text.parse_uint s 10

  unfoldable pub parse_const : ℕ → List (List ℕ) → Names → Result Names
  unfolding parse_value
  parse_const n (word ∷ name ∷ v ∷ []) consts = elim (parse_value v) [
    | none ↦ err (invalid_literal n)
    | some val ↦ elim (consts name) [
      | some old ↦ err (duplicate_constant n)
      | none ↦ ok (set_name name val consts)
    ]
  ]
  parse_const n _ consts = err (const_form n)

  unfoldable pub parse_instruction : ℕ → List (List ℕ) → Result (List Element)
  unfolding lookup
  parse_instruction n [] = ok []
  parse_instruction n (first ∷ rest) =
      if same_bytes (text.to_upper first) push_word
      then elim rest [ [] ↦ err (push_form n) | arg ∷ more ↦ ok (push n arg ∷ []) ]
      else elim (lookup (text.to_upper first) opcode_table) [
        | none ↦ err (unknown_instruction n)
        | some byte ↦ ok (op n byte ∷ [])
      ]

  -- The label in front, and what follows it.
  unfoldable pub parse_code : ℕ → List ℕ → List (List ℕ) → Result (List Element)
  unfolding label_name parse_instruction
  parse_code n first rest = elim (label_name first) [
    | none ↦ parse_instruction n (first ∷ rest)
    | some [] ↦ err (empty_label n)
    | some (c ∷ name) ↦ elim (parse_instruction n rest) [
      | err e ↦ err e
      | ok elems ↦ ok (label n (c ∷ name) ∷ elems)
    ]
  ]

  -- The lines from the one with the number `n` on: the constants and the elements.
  unfoldable pub parse_lines :
      ℕ → List (List ℕ) → Names → List Element → Result (Names × List Element)
  unfolding line_tokens parse_const parse_code
  parse_lines n [] consts elems = ok (consts, elems)
  parse_lines n (line ∷ lines) consts elems = elim (line_tokens line) [
    | [] ↦ parse_lines (suc n) lines consts elems
    | first ∷ rest ↦ elim (text.equal_fold first const_word) [
      | true ↦ elim (parse_const n (first ∷ rest) consts) [
        | err e ↦ err e
        | ok consts' ↦ parse_lines (suc n) lines consts' elems
      ]
      | false ↦ elim (parse_code n first rest) [
        | err e ↦ err e
        | ok more ↦ parse_lines (suc n) lines consts (elems ++ more)
      ]
    ]
  ]
