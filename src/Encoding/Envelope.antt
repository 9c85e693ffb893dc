-- ===== src/Encoding/Envelope.antt =====
-- pkg/encoding/envelope.go: the envelope around a payload on L1, and the deposit payload.
use tylium.Prelude.{
  ℕ, ◌+◌, ◌-◌, ◌%◌, ◌^◌, ◌<◌, ◌≡◌, refl, ap, ◌∙◌, not, List, ◌++◌, length, take, drop, arith, ltb,
  ◌==◌, if◌then◌else◌, length-append, take-append, false,
}
use tylium.Bytes.{be}
use tylium.Encoding.Fields.{short_buffer, invalid_data, Result, ok, err, slice, read_at, read_at-be}

-- 'T', 'Y', 'L', 0x01
abbrev pub magic : ℕ
magic = 0x54594c01

abbrev pub type_tx : ℕ
type_tx = 1

abbrev pub type_checkpoint : ℕ
type_checkpoint = 2

abbrev pub type_deposit : ℕ
type_deposit = 3

pub record Envelope : Type 0 where
  pub magic_prefix : ℕ
  pub kind : ℕ
  pub payload : List ℕ

-- `uint32(len(payload))` wraps.
unfoldable pub encode_envelope : ℕ → List ℕ → List ℕ
encode_envelope kind payload =
    be 4 magic ++ (be 1 kind ++ (be 4 (length payload % 4294967296) ++ payload))

abbrev envelope_of : List ℕ → Envelope
envelope_of d = record {
  magic_prefix = read_at 0 4 d;
  kind = read_at 4 1 d;
  payload = slice 9 (read_at 5 4 d) d;
}

-- On a buffer below 2 ^ 32 bytes, where the slice `data[9 : 9+payloadLen]` is in range: its bounds
-- are uint32 sums.
unfoldable pub decode_envelope : List ℕ → Result Envelope
decode_envelope d =
    if ltb (length d) 9
    then err short_buffer
    else if not (read_at 0 4 d == magic)
    then err invalid_data
    else if ltb ((length d - 9) % 4294967296) (read_at 5 4 d)
    then err short_buffer
    else ok (envelope_of d)

module _ (kind : ℕ) (payload rest : List ℕ) where
  bytes : List ℕ
  bytes = encode_envelope kind payload ++ rest

  magic-bytes : read_at 0 4 bytes ≡ magic
  unfolding bytes encode_envelope
  magic-bytes = read_at-be 0 4 magic bytes (unfold be in refl) (omega arith)

  payload-bytes : length payload < 4294967296 → read_at 5 4 bytes ≡ length payload
  unfolding bytes encode_envelope
  payload-bytes small =
      read_at-be 5 4 (length payload % 4294967296) bytes (unfold be in refl) (omega arith)
      ∙ omega arith

  length-bytes : length bytes ≡ 9 + length payload + length rest
  unfolding bytes encode_envelope be
  length-bytes = omega (arith, length-append {0} payload rest)

  drop-bytes : drop 9 bytes ≡ payload ++ rest
  unfolding bytes encode_envelope be
  drop-bytes = refl

  envelope_of-bytes :
      kind < 256
      → length payload < 4294967296
      → envelope_of bytes ≡ record { magic_prefix = magic; kind = kind; payload = payload }
  envelope_of-bytes fits small i = record {
    magic_prefix = magic-bytes i;
    kind = read_at-be 4 1 kind bytes (unfold bytes encode_envelope be in refl) fits i;
    payload = payload-slice i;
  }
    where
      payload-slice : slice 9 (read_at 5 4 bytes) bytes ≡ payload
      payload-slice =
          ap (λ k. take k (drop 9 bytes)) (payload-bytes small)
          ∙ ap (take (length payload)) drop-bytes
          ∙ take-append (length payload) payload rest refl

  -- Decoding an encoded envelope gives its kind and payload, whatever bytes follow, if the whole
  -- buffer has less than 2 ^ 32 bytes.
  pub decode_envelope-encode_envelope :
      kind < 256
      → 9 + length payload + length rest < 4294967296
      → decode_envelope (encode_envelope kind payload ++ rest)
        ≡ ok (record { magic_prefix = magic; kind = kind; payload = payload })
  unfolding decode_envelope bytes
  decode_envelope-encode_envelope fits short =
      rw (long, genuine, holds) (ap ok (envelope_of-bytes fits (omega arith)))
    where
      long : ltb (length bytes) 9 ≡ false
      long = ground (arith, length-bytes)

      genuine : not (read_at 0 4 bytes == magic) ≡ false
      genuine = ground (arith, magic-bytes)

      holds : ltb ((length bytes - 9) % 4294967296) (read_at 5 4 bytes) ≡ false
      holds = ground (arith, length-bytes, payload-bytes)

-- `copy(buf[:20], recipient[:])`, then the amount.
unfoldable pub encode_deposit : ℕ → ℕ → List ℕ
encode_deposit recipient amount = be 20 recipient ++ be 8 amount

unfoldable pub decode_deposit : List ℕ → Result (ℕ × ℕ)
decode_deposit d =
    if ltb (length d) 28 then err short_buffer else ok (read_at 0 20 d, read_at 20 8 d)

-- Decoding an encoded deposit gives the recipient and the amount, whatever bytes follow.
pub decode_deposit-encode_deposit :
    (recipient amount : ℕ) (rest : List ℕ)
    → recipient < 256 ^ 20
    → amount < 256 ^ 8
    → decode_deposit (encode_deposit recipient amount ++ rest) ≡ ok (recipient, amount)
unfolding decode_deposit encode_deposit
decode_deposit-encode_deposit recipient amount rest r a =
    decoded
    ∙ ap ok (λ i. (
      read_at-be 0 20 recipient d (unfold be in refl) r i,
      read_at-be 20 8 amount d (unfold be in refl) a i,
    ))
  where
    d : List ℕ
    d = encode_deposit recipient amount ++ rest

    length-d : length d ≡ 28 + length rest
    length-d = unfold be in (omega arith)

    long : ltb (length d) 28 ≡ false
    long = ground (arith, length-d)

    decoded : decode_deposit d ≡ ok (read_at 0 20 d, read_at 20 8 d)
    decoded = rw long
