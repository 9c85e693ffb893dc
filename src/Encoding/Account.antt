-- ===== src/Encoding/Account.antt =====
-- pkg/encoding/codec.go: `EncodeAccount` and `DecodeAccount`.
use tylium.Prelude.{
  ℕ, false, ◌+◌, ◌≡◌, refl, ap, ◌∙◌, List, ◌++◌, All, length, take, arith, ltb, if◌then◌else◌,
}
use tylium.Bytes.{be}
use tylium.Bytes.Laws.{IsByte}
use tylium.Types.{Account, FitsAccount}
use tylium.Encoding.Fields.{
  short_buffer, Result, ok, err, read_at, read_at-be, be-read_at, be-read_at_append, guard-ok,
}

unfoldable pub encode_account : Account → List ℕ
encode_account a = be 8 a.nonce ++ (be 8 a.balance ++ (be 32 a.code_hash ++ be 32 a.storage_root))

abbrev account_of : List ℕ → Account
account_of d = record {
  nonce = read_at 0 8 d;
  balance = read_at 8 8 d;
  code_hash = read_at 16 32 d;
  storage_root = read_at 48 32 d;
}

unfoldable pub decode_account : List ℕ → Result Account
decode_account d = if ltb (length d) 80 then err short_buffer else ok (account_of d)

-- Decoding an encoded account whose fields are in range gives it back, whatever bytes follow it.
pub decode_account-encode_account :
    (a : Account) (rest : List ℕ) → FitsAccount a → decode_account (encode_account a ++ rest) ≡ ok a
unfolding decode_account encode_account
decode_account-encode_account a rest fits =
    decoded
    ∙ ap ok (λ i. record {
      nonce = read_at-be 0 8 a.nonce d (unfold be in refl) fits.nonce i;
      balance = read_at-be 8 8 a.balance d (unfold be in refl) fits.balance i;
      code_hash = read_at-be 16 32 a.code_hash d (unfold be in refl) fits.code_hash i;
      storage_root = read_at-be 48 32 a.storage_root d (unfold be in refl) fits.storage_root i;
    })
  where
    d : List ℕ
    d = encode_account a ++ rest

    length-d : length d ≡ 80 + length rest
    length-d = unfold be in (omega arith)

    long : ltb (length d) 80 ≡ false
    long = ground (arith, length-d)

    decoded : decode_account d ≡ ok (account_of d)
    decoded = rw long

-- A buffer of bytes that decodes to an account holds the encoding of that account in its first 80
-- bytes.
pub encode_account-decode_account :
    (d : List ℕ) (a : Account)
    → All IsByte d
    → decode_account d ≡ ok a
    → encode_account a ≡ take 80 d
unfolding decode_account encode_account
encode_account-decode_account d a bytes h =
    let (long, same) = guard-ok (length d) 80 short_buffer (account_of d) a h in
    let e₃ = be-read_at 48 32 d bytes (omega arith) in
    let e₂ = be-read_at_append 16 32 32 d _ bytes (omega arith) e₃ in
    let e₁ = be-read_at_append 8 8 64 d _ bytes (omega arith) e₂ in
    rw same (be-read_at_append 0 8 72 d _ bytes (omega arith) e₁)
