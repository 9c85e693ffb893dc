-- ===== src/Signature.antt =====
-- pkg/crypto/sign.go, and PubKeyToAddress of pkg/types/address.go: signatures of 64 bytes, r and s.
use tylium.Prelude.{
  ℕ, ◌+◌, ◌%◌, Bool, false, ◌||◌, Option, none, some, List, [], ◌∷◌, ◌++◌, ◌==◌, leb, length, take,
  drop, if◌then◌else◌,
}
use tylium.Bytes.{be}

-- The ECDSA library: `RecoverCompact` with the key compressed, `ParseDERSignature` to r and s, and
-- `Verify` of a hash and a key. RIPEMD-160 stands beside it.
pub record Curve : Type 0 where
  pub recover_compact : List ℕ → ℕ → Option ℕ
  pub parse_der_signature : List ℕ → Option (ℕ × ℕ)
  pub verify_parsed : ℕ × ℕ → ℕ → ℕ → Bool
  pub ripemd160 : List ℕ → ℕ

unfoldable pub strip_leading_zeros : List ℕ → List ℕ
strip_leading_zeros (x ∷ y ∷ b) =
    let rest = strip_leading_zeros (y ∷ b) in if x == 0 then rest else x ∷ y ∷ b
strip_leading_zeros b = b

-- A byte in front of a set high bit.
unfoldable pub with_sign_byte : List ℕ → List ℕ
with_sign_byte [] = []
with_sign_byte (x ∷ b) = if leb 128 x then 0 ∷ x ∷ b else x ∷ b

unfoldable pub compact_to_der : List ℕ → List ℕ → List ℕ
unfolding strip_leading_zeros with_sign_byte
compact_to_der r s =
    let r' = with_sign_byte (strip_leading_zeros r) in
    let s' = with_sign_byte (strip_leading_zeros s) in
    (0x30 ∷ (2 + length r' + 2 + length s') % 256 ∷ [])
    ++ ((2 ∷ length r' % 256 ∷ r') ++ (2 ∷ length s' % 256 ∷ s'))

module _ (sha256 : List ℕ → ℕ) (curve : Curve) where
  -- Of a compressed key, which has 33 bytes.
  unfoldable pub pub_key_to_address : ℕ → ℕ
  pub_key_to_address key = curve.ripemd160 (be 32 (sha256 (be 33 key)))

  -- One round of the loop over the flags.
  unfoldable pub recovers : ℕ → ℕ → ℕ → ℕ → Bool
  unfolding pub_key_to_address
  recovers flag hash sig claimed = elim (curve.recover_compact (flag ∷ be 64 sig) hash) [
    | none ↦ false
    | some key ↦ pub_key_to_address key == claimed
  ]

  -- The flags are 27 + 4 and 28 + 4.
  unfoldable pub verify_sender : ℕ → ℕ → ℕ → Bool
  unfolding recovers
  verify_sender hash sig claimed = recovers 31 hash sig claimed || recovers 32 hash sig claimed

  unfoldable pub verify : ℕ → ℕ → ℕ → Bool
  unfolding compact_to_der
  verify hash sig key =
      elim (curve.parse_der_signature
        (compact_to_der (take 32 (be 64 sig)) (drop 32 (be 64 sig)))) [
          | none ↦ false
          | some parsed ↦ curve.verify_parsed parsed hash key
        ]
