-- ===== src/Encoding/Tx/RoundTrip.antt =====
-- `EncodeTx` and `DecodeTx` undo one another.
use tylium.Prelude.{
  ℕ, ◌+◌, ◌-◌, ◌%◌, ◌≤◌, ◌<◌, ◌≡◌, refl, ap, sym, ◌∙◌, List, ◌++◌, length, length-append,
  drop-append, take-append, take, drop, All, arith, ltb, ltb_false→le, false,
}
use mathlib.Core.Path.{◌≡⟨◌⟩◌, ◌∎}
use mathlib.Core.List.{append_assoc}
use tylium.Bytes.{be}
use tylium.Bytes.Laws.{IsByte, length-be}
use tylium.Types.{Transaction, FitsTransaction}
use tylium.Encoding.Fields.{
  ok, short_buffer, invalid_data, guards-ok, slice, length-slice, slice-append, be-read_at,
  be-read_at_append, take-eq, read_at, read_at-be, drop-add,
}
use tylium.Encoding.Tx.{encode_tx, decode_tx, fields_of, payload_length}

module _ (tx : Transaction) (fits : FitsTransaction tx) (small : length tx.payload ≤ 1000000)
    (rest : List ℕ) where
  bytes : List ℕ
  bytes = encode_tx tx ++ rest

  drop-header : drop 78 bytes ≡ (tx.payload ++ be 64 tx.signature) ++ rest
  unfolding bytes encode_tx be
  drop-header = refl

  payload_length-bytes : payload_length bytes ≡ length tx.payload
  unfolding bytes encode_tx
  payload_length-bytes =
      read_at-be 74 4 (length tx.payload % 4294967296) bytes header (omega arith) ∙ omega arith
    where
      header : slice 74 4 bytes ≡ be 4 (length tx.payload % 4294967296)
      header = unfold be in refl

  payload-bytes : slice 78 (payload_length bytes) bytes ≡ tx.payload
  payload-bytes =
      slice 78 (payload_length bytes) bytes
      ≡⟨ ap (λ k. slice 78 k bytes) payload_length-bytes ⟩ take (length tx.payload) (drop 78 bytes)
      ≡⟨ ap (take (length tx.payload))
          (drop-header ∙ append_assoc tx.payload (be 64 tx.signature) rest) ⟩
        take (length tx.payload) (tx.payload ++ (be 64 tx.signature ++ rest))
      ≡⟨ take-append (length tx.payload) tx.payload (be 64 tx.signature ++ rest) refl ⟩ tx.payload ∎

  signature-bytes : slice (78 + payload_length bytes) 64 bytes ≡ be 64 tx.signature
  signature-bytes =
      slice (78 + payload_length bytes) 64 bytes
      ≡⟨ ap (λ k. take 64 (drop (78 + k) bytes)) payload_length-bytes ⟩
        take 64 (drop (78 + length tx.payload) bytes)
      ≡⟨ ap (take 64) (sym (drop-add 78 (length tx.payload) bytes)) ⟩
        take 64 (drop (length tx.payload) (drop 78 bytes))
      ≡⟨ ap (λ l. take 64 (drop (length tx.payload) l))
          (drop-header ∙ append_assoc tx.payload (be 64 tx.signature) rest) ⟩
        take 64 (drop (length tx.payload) (tx.payload ++ (be 64 tx.signature ++ rest)))
      ≡⟨ ap (take 64)
          (drop-append (length tx.payload) tx.payload (be 64 tx.signature ++ rest) refl) ⟩
        take 64 (be 64 tx.signature ++ rest)
      ≡⟨ take-append 64 (be 64 tx.signature) rest (length-be 64 tx.signature) ⟩ be 64 tx.signature ∎

  length-bytes : length bytes ≡ 142 + length tx.payload + length rest
  unfolding bytes encode_tx be
  length-bytes = omega (
    arith,
    length-append {0} (tx.payload ++ be 64 tx.signature) rest,
    length-append {0} tx.payload (be 64 tx.signature),
    length-be 64 tx.signature,
  )

  fields_of-bytes : fields_of bytes ≡ tx
  unfolding bytes encode_tx
  fields_of-bytes i = record {
    version = read_at-be 0 1 tx.version bytes (unfold be in refl) fits.version i;
    nonce = read_at-be 1 8 tx.nonce bytes (unfold be in refl) fits.nonce i;
    sender = read_at-be 9 20 tx.sender bytes (unfold be in refl) fits.sender i;
    recipient = read_at-be 29 20 tx.recipient bytes (unfold be in refl) fits.recipient i;
    value = read_at-be 49 8 tx.value bytes (unfold be in refl) fits.value i;
    gas_price = read_at-be 57 8 tx.gas_price bytes (unfold be in refl) fits.gas_price i;
    gas_limit = read_at-be 65 8 tx.gas_limit bytes (unfold be in refl) fits.gas_limit i;
    priority = read_at-be 73 1 tx.priority bytes (unfold be in refl) fits.priority i;
    payload = payload-bytes i;
    signature =
        read_at-be (78 + payload_length bytes) 64 tx.signature bytes signature-bytes fits.signature
          i;
  }

  -- Decoding an encoded transaction gives it back, whatever bytes follow it, if these are less than
  -- 2 ^ 31, its fields are in range and its payload has at most 1,000,000 bytes.
  pub decode_tx-encode_tx : length rest < 2147483648 → decode_tx (encode_tx tx ++ rest) ≡ ok tx
  unfolding decode_tx bytes
  decode_tx-encode_tx short = rw (long, capped, holds) (ap ok fields_of-bytes)
    where
      long : ltb (length bytes) 142 ≡ false
      long = ground (arith, length-bytes)

      capped : ltb 1000000 (payload_length bytes) ≡ false
      capped = ground (arith, payload_length-bytes)

      holds :
          ltb ((length bytes - 78) % 4294967296) ((payload_length bytes + 64) % 4294967296) ≡ false
      holds = ground (arith, payload_length-bytes, length-bytes)

-- The second guard of the length, once the first and the cap have passed.
enough :
    (l k : ℕ)
    → l < 4294967296
    → ltb l 142 ≡ false
    → ltb 1000000 k ≡ false
    → ltb ((l - 78) % 4294967296) ((k + 64) % 4294967296) ≡ false
    → 142 + k ≤ l
enough l k short long capped holds = omega (
  arith,
  ltb_false→le l 142 long,
  ltb_false→le 1000000 k capped,
  ltb_false→le ((l - 78) % 4294967296) ((k + 64) % 4294967296) holds,
)

module _ (d : List ℕ) (bytes : All IsByte d) (short : length d < 4294967296) where
  decode_tx-ok :
      (tx : Transaction)
      → decode_tx d ≡ ok tx
      → (tx ≡ fields_of d) × (142 + payload_length d ≤ length d) × (payload_length d ≤ 1000000)
  unfolding decode_tx
  decode_tx-ok tx h =
      let (long, capped, holds, same) =
        guards-ok (ltb (length d) 142) (ltb 1000000 (payload_length d))
          (ltb ((length d - 78) % 4294967296) ((payload_length d + 64) % 4294967296)) short_buffer
          invalid_data short_buffer (fields_of d) tx h in
      (
        same,
        enough (length d) (payload_length d) short long capped holds,
        ltb_false→le 1000000 (payload_length d) capped,
      )

  length-payload :
      142 + payload_length d ≤ length d → length (slice 78 (payload_length d) d) ≡ payload_length d
  length-payload long = length-slice 78 (payload_length d) d (omega arith)

  tail_of :
      142 + payload_length d ≤ length d
      → slice 78 (payload_length d) d ++ be 64 (read_at (78 + payload_length d) 64 d)
        ≡ slice 78 (payload_length d + 64) d
  tail_of long =
      ap (λ l. slice 78 (payload_length d) d ++ l)
        (be-read_at (78 + payload_length d) 64 d bytes (omega arith))
      ∙ slice-append 78 (payload_length d) 64 d

  encode_tx-fields_of :
      142 + payload_length d ≤ length d
      → payload_length d ≤ 1000000
      → encode_tx (fields_of d) ≡ take (142 + payload_length d) d
  unfolding encode_tx
  encode_tx-fields_of long capped =
      let k = payload_length d in
      let e₈ = field 74 4 (k + 64) _ (omega arith) (tail_of long) in
      let e₇ = field 73 1 (4 + (k + 64)) _ (omega arith) e₈ in
      let e₆ = field 65 8 (1 + (4 + (k + 64))) _ (omega arith) e₇ in
      let e₅ = field 57 8 (8 + (1 + (4 + (k + 64)))) _ (omega arith) e₆ in
      let e₄ = field 49 8 (8 + (8 + (1 + (4 + (k + 64))))) _ (omega arith) e₅ in
      let e₃ = field 29 20 (8 + (8 + (8 + (1 + (4 + (k + 64)))))) _ (omega arith) e₄ in
      let e₂ = field 9 20 (20 + (8 + (8 + (8 + (1 + (4 + (k + 64))))))) _ (omega arith) e₃ in
      let e₁ = field 1 8 (20 + (20 + (8 + (8 + (8 + (1 + (4 + (k + 64)))))))) _ (omega arith) e₂ in
      let e₀ =
        field 0 1 (8 + (20 + (20 + (8 + (8 + (8 + (1 + (4 + (k + 64))))))))) _ (omega arith) e₁ in
      rw length-payload_field (e₀ ∙ take-eq _ (142 + k) d (omega arith))
    where
      field :
          (off n m : ℕ) (l : List ℕ)
          → off + (n + m) ≤ length d
          → l ≡ slice (off + n) m d
          → be n (read_at off n d) ++ l ≡ slice off (n + m) d
      field off n m l h e = be-read_at_append off n m d l bytes h e

      length-payload_field : length (slice 78 (payload_length d) d) % 4294967296 ≡ payload_length d
      length-payload_field = omega (arith, length-payload long)

  -- A buffer of bytes, shorter than 2 ^ 32, that decodes is the encoding of what it decodes to,
  -- followed by bytes that the decoder does not look at.
  encode_tx-decode_tx :
      (tx : Transaction) → decode_tx d ≡ ok tx → encode_tx tx ≡ take (142 + length tx.payload) d
  encode_tx-decode_tx tx h =
      let (same, long, capped) = decode_tx-ok tx h in
      rw same (encode_tx-fields_of long capped ∙ take-eq _ _ d (omega (arith, length-payload long)))
