-- ===== src/Contracts/Script/Placed.antt =====
-- contracts/script/compiler.go: where the labels are in the code.
use tylium.Prelude.{
  ℕ, ◌+◌, true, false, Option, none, some, List, [], ◌∷◌, ◌++◌, length, length-append, ◌≡◌, refl,
  sym, ap, ◌∙◌, arith, Bool-cases, Option-cases, inl, inr, ◌⊎◌, ==→eq,
}
use mathlib.Core.Path.{fun_ext, ap₂}
use mathlib.Core.List.{append_assoc}
use tylium.Bytes.{same_bytes}
use tylium.Bytes.Laws.{length-be}
use tylium.Contracts.Asm.{min_bytes}
use tylium.Contracts.Script.Source.{
  Text, Element, label, push, op, CompileError, Result, ok, err, Names, no_names, set_name,
}
use tylium.Contracts.Script.Emit.{
  push_bytes, push_size, resolve_arg, size_of, moved, pass, settle, emit, duplicate, assemble,
}

same_bytes-eq : (xs ys : List ℕ) → same_bytes xs ys ≡ true → xs ≡ ys
unfolding same_bytes
same_bytes-eq [] [] h = refl
same_bytes-eq [] (y ∷ ys) h = absurd (ground (arith, h))
same_bytes-eq (x ∷ xs) [] h = absurd (ground (arith, h))
same_bytes-eq (x ∷ xs) (y ∷ ys) h =
    ap₂ ◌∷◌ (ground (arith, h, ==→eq x y)) (same_bytes-eq xs ys (ground (arith, h)))

set_name-known : (name : List ℕ) (v : ℕ) (m : Names) → m name ≡ some v → set_name name v m ≡ m
set_name-known name v m h = fun_ext λ k. elim (Bool-cases (same_bytes name k)) [
  | inl same ↦ ground (arith, same, h, ap m (same_bytes-eq name k same))
  | inr other ↦ ground (arith, other)
]

length-push_bytes : (v : ℕ) → length (push_bytes v) ≡ push_size v
unfolding push_bytes push_size
length-push_bytes v = ground (arith, length-be (min_bytes 8 v) v)

moved-known : (o : Option ℕ) (offset : ℕ) → moved o offset ≡ false → o ≡ some offset
unfolding moved
moved-known none offset h = absurd (ground (arith, h))
moved-known (some prev) offset h = ground (arith, h, ==→eq prev offset)

Result-cases :
    {A : Type 0} (r : Result A) → ((e : CompileError) × (r ≡ err e)) ⊎ ((a : A) × (r ≡ ok a))
Result-cases (ok a) = inr (a, refl)
Result-cases (err e) = inl (e, refl)

module _ (text : Text) (consts : Names) where
  pass-changed :
      (elems : List Element) (labels : Names) (offset : ℕ)
      → (pass text consts elems labels offset true).1 ≡ true
  unfolding pass
  pass-changed [] labels offset = refl
  pass-changed (label n name ∷ elems) labels offset =
      pass-changed elems (set_name name offset labels) offset
  pass-changed (push n arg ∷ elems) labels offset = pass-changed elems labels _
  pass-changed (op n byte ∷ elems) labels offset = pass-changed elems labels _

  -- In a round that moves nothing, a label has the offset at which it is met.
  label-met :
      (n : ℕ) (name : List ℕ) (elems : List Element) (labels : Names) (offset : ℕ)
      → (pass text consts (label n name ∷ elems) labels offset false).1 ≡ false
      → (labels name ≡ some offset) × ((pass text consts elems labels offset false).1 ≡ false)
  unfolding pass
  label-met n name elems labels offset h = elim (Bool-cases (moved (labels name) offset)) [
    | inl e ↦ absurd (ground (arith, e, h, pass-changed elems (set_name name offset labels) offset))
    | inr e ↦
        let known : labels name ≡ some offset = moved-known (labels name) offset e in
        (
          known,
          ap (λ b. (pass text consts elems labels offset b).1) (sym e)
              ∙ ap (λ m. (pass text consts elems m offset (moved (labels name) offset)).1)
                  (sym (set_name-known name offset labels known))
              ∙ h,
        )
  ]

  emit-push :
      (n : ℕ) (arg : List ℕ) (elems : List Element) (labels : Names) (code : List ℕ)
      → emit text consts labels (push n arg ∷ elems) ≡ ok code
      → (v : ℕ) × (rest : List ℕ) × (resolve_arg text consts labels arg ≡ some v)
        × (emit text consts labels elems ≡ ok rest)
        × (code ≡ push_bytes v ++ rest)
  unfolding emit
  emit-push n arg elems labels code h = elim (Option-cases (resolve_arg text consts labels arg)) [
    | inl e ↦ absurd (ground (arith, e, h))
    | inr (v, e) ↦ elim (Result-cases (emit text consts labels elems)) [
      | inl (x, f) ↦ absurd (ground (arith, e, f, h))
      | inr (rest, f) ↦ (v, rest, e, f, ground (arith, e, f, h))
    ]
  ]

  emit-op :
      (n byte : ℕ) (elems : List Element) (labels : Names) (code : List ℕ)
      → emit text consts labels (op n byte ∷ elems) ≡ ok code
      → (rest : List ℕ) × (emit text consts labels elems ≡ ok rest) × (code ≡ byte ∷ rest)
  unfolding emit
  emit-op n byte elems labels code h = elim (Result-cases (emit text consts labels elems)) [
    | inl (x, f) ↦ absurd (ground (arith, f, h))
    | inr (rest, f) ↦ (rest, f, ground (arith, f, h))
  ]

  -- The code of elements in front of that of the rest.
  pub record Split (labels : Names) (front rest : List Element) (code : List ℕ) : Type 0 where
    pub front_code : List ℕ
    pub rest_code : List ℕ
    pub front_emits : emit text consts labels front ≡ ok front_code
    pub rest_emits : emit text consts labels rest ≡ ok rest_code
    pub joined : code ≡ front_code ++ rest_code

  emit-append :
      (labels : Names) (front rest : List Element) (code : List ℕ)
      → emit text consts labels (front ++ rest) ≡ ok code
      → Split labels front rest code
  unfolding emit
  emit-append labels [] rest code h = record {
    front_code = [];
    rest_code = code;
    front_emits = refl;
    rest_emits = h;
    joined = refl;
  }
  emit-append labels (label n name ∷ front) rest code h =
      let s = emit-append labels front rest code h in
      record {
        front_code = s.front_code;
        rest_code = s.rest_code;
        front_emits = s.front_emits;
        rest_emits = s.rest_emits;
        joined = s.joined;
      }
  emit-append labels (push n arg ∷ front) rest code h =
      let (v, code', arg_is, emits, whole) = emit-push n arg (front ++ rest) labels code h in
      let s = emit-append labels front rest code' emits in
      record {
        front_code = push_bytes v ++ s.front_code;
        rest_code = s.rest_code;
        front_emits = ground (arith, arg_is, s.front_emits);
        rest_emits = s.rest_emits;
        joined =
            whole
            ∙ ap (λ c. push_bytes v ++ c) s.joined
            ∙ sym (append_assoc (push_bytes v) s.front_code s.rest_code);
      }
  emit-append labels (op n byte ∷ front) rest code h =
      let (code', emits, whole) = emit-op n byte (front ++ rest) labels code h in
      let s = emit-append labels front rest code' emits in
      record {
        front_code = byte ∷ s.front_code;
        rest_code = s.rest_code;
        front_emits = ground (arith, s.front_emits);
        rest_emits = s.rest_emits;
        joined = whole ∙ ap (λ c. byte ∷ c) s.joined;
      }

  label-Placed :
      (n : ℕ) (name : List ℕ) (front rest : List Element) (labels : Names) (offset : ℕ)
      (code : List ℕ)
      → (pass text consts (front ++ (label n name ∷ rest)) labels offset false).1 ≡ false
      → emit text consts labels front ≡ ok code
      → labels name ≡ some (offset + length code)
  unfolding emit
  label-Placed n name [] rest labels offset code h e =
      (label-met n name rest labels offset h).0 ∙ ap some (ground (arith, e))
  label-Placed n name (label n' name' ∷ front) rest labels offset code h e =
      label-Placed n name front rest labels offset code
        (label-met n' name' (front ++ (label n name ∷ rest)) labels offset h).1 e
  label-Placed n name (push n' arg ∷ front) rest labels offset code h e =
      let (v, code', arg_is, emits, whole) = emit-push n' arg front labels code e in
      let size : size_of (resolve_arg text consts labels arg) ≡ push_size v =
        unfold size_of in (ground (arith, arg_is)) in
      label-Placed n name front rest labels (offset + size_of (resolve_arg text consts labels arg))
        code' (unfold pass in h) emits
      ∙ ap some (
          omega
            (arith, size, length-push_bytes v, ap length whole, length-append (push_bytes v) code'))
  label-Placed n name (op n' byte ∷ front) rest labels offset code h e =
      let (code', emits, whole) = emit-op n' byte front labels code e in
      label-Placed n name front rest labels (offset + 1) code' (unfold pass in h) emits
      ∙ ap some (omega (arith, ap length whole))

  -- If a program assembles and another round over its elements would move no label, then the code
  -- is that of the elements in front of a label followed by that of the elements from the label on,
  -- and the label's offset is the length of the former.
  pub assemble-Placed :
      (n : ℕ) (name : List ℕ) (front rest : List Element) (code : List ℕ)
      → assemble text consts (front ++ (label n name ∷ rest)) ≡ ok code
      → (pass text consts
          (front ++ (label n name ∷ rest))
          (settle text consts 20 (front ++ (label n name ∷ rest)) no_names)
          0
          false).1
        ≡ false
      → (s : Split
          (settle text consts 20 (front ++ (label n name ∷ rest)) no_names)
          front
          (label n name ∷ rest)
          code)
        × (settle text consts 20 (front ++ (label n name ∷ rest)) no_names name
            ≡ some (length s.front_code))
  unfolding assemble
  assemble-Placed n name front rest code h settled =
      let labels = settle text consts 20 (front ++ (label n name ∷ rest)) no_names in
      elim (Option-cases (duplicate (front ++ (label n name ∷ rest)) no_names)) [
        | inr (m, e) ↦ absurd (ground (arith, e, h))
        | inl e ↦
            let s = emit-append labels front (label n name ∷ rest) code (ground (arith, e, h)) in
            (
              s,
              label-Placed n name front rest labels 0 s.front_code settled s.front_emits
                  ∙ ap some (omega arith),
            )
      ]
