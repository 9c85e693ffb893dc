-- ===== src/Encoding/Checkpoint.antt =====
-- pkg/encoding/codec.go: `EncodeCheckpoint` and `DecodeCheckpoint`.
use tylium.Prelude.{
  ℕ, false, ◌+◌, ◌≡◌, refl, ap, ◌∙◌, List, ◌++◌, All, length, take, arith, ltb, if◌then◌else◌,
}
use tylium.Bytes.{be}
use tylium.Bytes.Laws.{IsByte}
use tylium.Types.{Checkpoint, FitsCheckpoint}
use tylium.Encoding.Fields.{
  short_buffer, Result, ok, err, read_at, read_at-be, be-read_at, be-read_at_append, guard-ok,
}

unfoldable pub encode_checkpoint : Checkpoint → List ℕ
encode_checkpoint cp =
    be 32 cp.state_root
    ++ (be 32 cp.prev_checksum
        ++ (be 32 cp.tx_root
            ++ (be 8 cp.gas_collected
                ++ (be 33 cp.miner_pub_key
                    ++ (be 32 cp.miner_nonce
                        ++ (be 32 cp.attestation_hash ++ be 64 cp.signature))))))

abbrev checkpoint_of : List ℕ → Checkpoint
checkpoint_of d = record {
  state_root = read_at 0 32 d;
  prev_checksum = read_at 32 32 d;
  tx_root = read_at 64 32 d;
  gas_collected = read_at 96 8 d;
  miner_pub_key = read_at 104 33 d;
  miner_nonce = read_at 137 32 d;
  attestation_hash = read_at 169 32 d;
  signature = read_at 201 64 d;
}

unfoldable pub decode_checkpoint : List ℕ → Result Checkpoint
decode_checkpoint d = if ltb (length d) 265 then err short_buffer else ok (checkpoint_of d)

-- Decoding an encoded checkpoint whose fields are in range gives it back, whatever bytes follow
-- it.
pub decode_checkpoint-encode_checkpoint :
    (cp : Checkpoint) (rest : List ℕ)
    → FitsCheckpoint cp
    → decode_checkpoint (encode_checkpoint cp ++ rest) ≡ ok cp
unfolding decode_checkpoint encode_checkpoint
decode_checkpoint-encode_checkpoint cp rest fits =
    decoded
    ∙ ap ok (λ i. record {
      state_root = read_at-be 0 32 cp.state_root d (unfold be in refl) fits.state_root i;
      prev_checksum = read_at-be 32 32 cp.prev_checksum d (unfold be in refl) fits.prev_checksum i;
      tx_root = read_at-be 64 32 cp.tx_root d (unfold be in refl) fits.tx_root i;
      gas_collected = read_at-be 96 8 cp.gas_collected d (unfold be in refl) fits.gas_collected i;
      miner_pub_key = read_at-be 104 33 cp.miner_pub_key d (unfold be in refl) fits.miner_pub_key i;
      miner_nonce = read_at-be 137 32 cp.miner_nonce d (unfold be in refl) fits.miner_nonce i;
      attestation_hash =
          read_at-be 169 32 cp.attestation_hash d (unfold be in refl) fits.attestation_hash i;
      signature = read_at-be 201 64 cp.signature d (unfold be in refl) fits.signature i;
    })
  where
    d : List ℕ
    d = encode_checkpoint cp ++ rest

    length-d : length d ≡ 265 + length rest
    length-d = unfold be in (omega arith)

    long : ltb (length d) 265 ≡ false
    long = ground (arith, length-d)

    decoded : decode_checkpoint d ≡ ok (checkpoint_of d)
    decoded = rw long

-- A buffer of bytes that decodes to a checkpoint holds its encoding in its first 265 bytes.
pub encode_checkpoint-decode_checkpoint :
    (d : List ℕ) (cp : Checkpoint)
    → All IsByte d
    → decode_checkpoint d ≡ ok cp
    → encode_checkpoint cp ≡ take 265 d
unfolding decode_checkpoint encode_checkpoint
encode_checkpoint-decode_checkpoint d cp bytes h =
    let (long, same) = guard-ok (length d) 265 short_buffer (checkpoint_of d) cp h in
    let e₇ = be-read_at 201 64 d bytes (omega arith) in
    let e₆ = be-read_at_append 169 32 64 d _ bytes (omega arith) e₇ in
    let e₅ = be-read_at_append 137 32 96 d _ bytes (omega arith) e₆ in
    let e₄ = be-read_at_append 104 33 128 d _ bytes (omega arith) e₅ in
    let e₃ = be-read_at_append 96 8 161 d _ bytes (omega arith) e₄ in
    let e₂ = be-read_at_append 64 32 169 d _ bytes (omega arith) e₃ in
    let e₁ = be-read_at_append 32 32 201 d _ bytes (omega arith) e₂ in
    rw same (be-read_at_append 0 32 233 d _ bytes (omega arith) e₁)
