-- ===== src/Miner.antt =====
-- internal/miner/miner.go: attestations to a state root, their distance from it and which one wins.
pub mod Search
use Prim.Native.Nat.{compare, Ordering, bit_xor}
use tylium.Prelude.{ℕ, ◌-◌, ◌^◌, Option, none, some, List, [], ◌∷◌, ◌++◌, ltb, if◌then◌else◌}
use tylium.Bytes.{be}
use tylium.Types.{Checkpoint}
use tylium.Types.Order.{double_sha256}

-- `Distance`: the xor of two hashes, byte by byte, read as a number.
unfoldable pub distance : ℕ → ℕ → ℕ
distance a b = bit_xor a b

-- `CompareAttestations`: the sign of Go's int. Comparing the bytes of two public keys is comparing
-- the numbers.
unfoldable pub compare_attestations : Checkpoint → Checkpoint → ℕ → Ordering
unfolding distance
compare_attestations a b state_root =
    elim (compare (distance a.attestation_hash state_root)
      (distance b.attestation_hash state_root)) [
        | Ordering.lt ↦ Ordering.lt
        | Ordering.gt ↦ Ordering.gt
        | Ordering.eq ↦ compare a.miner_pub_key b.miner_pub_key
      ]

module _ (sha256 : List ℕ → ℕ) where
  -- SHA-256 of the nonce and the state root.
  unfoldable pub attestation_of : ℕ → ℕ → ℕ
  attestation_of nonce state_root = sha256 (be 32 nonce ++ be 32 state_root)

  unfoldable pub checkpoint_signing_hash : Checkpoint → ℕ
  checkpoint_signing_hash cp = double_sha256 sha256 (
      be 32 cp.state_root
      ++ (be 32 cp.prev_checksum
          ++ (be 32 cp.miner_nonce ++ (be 32 cp.attestation_hash ++ be 33 cp.miner_pub_key))))

  -- The checkpoint before it is signed.
  abbrev pub unsigned : ℕ → ℕ → ℕ → ℕ → ℕ → Checkpoint
  unsigned state_root prev_checksum nonce attest_hash pub_key = record {
    state_root = state_root;
    prev_checksum = prev_checksum;
    tx_root = 0;
    gas_collected = 0;
    miner_pub_key = pub_key;
    miner_nonce = nonce;
    attestation_hash = attest_hash;
    signature = 0;
  }

  -- The miner's key is behind two functions of the elliptic-curve library, parameters: its
  -- compressed public key, and `crypto.Sign` of a hash.
  module _ (pub_key : ℕ) (sign : ℕ → Option ℕ) where
    unfoldable pub build_checkpoint : ℕ → ℕ → ℕ → ℕ → Option Checkpoint
    unfolding checkpoint_signing_hash
    build_checkpoint state_root prev_checksum nonce attest_hash =
        let cp = unsigned state_root prev_checksum nonce attest_hash pub_key in
        elim (sign (checkpoint_signing_hash cp)) [
          | none ↦ none
          | some sig ↦ some (record cp { signature = sig })
        ]

    -- The variables of the loop of `Mine`.
    pub record Best : Type 0 where
      pub best_nonce : ℕ
      pub best_hash : ℕ
      pub best_dist : ℕ

    -- One round, with the nonce that was drawn. `found` is whether there is a best one.
    unfoldable pub try_nonce : ℕ → ℕ → Option Best → Option Best
    unfolding attestation_of distance
    try_nonce state_root nonce best =
        let candidate = attestation_of nonce state_root in
        let dist = distance candidate state_root in
        let best_dist : ℕ = elim best [ none ↦ 2 ^ 256 - 1 | some b ↦ b.best_dist ] in
        if ltb dist best_dist
        then some (record { best_nonce = nonce; best_hash = candidate; best_dist = dist })
        else best

    -- The nonces that are drawn until the context is cancelled; a failed read of the random source
    -- is `none` and draws again.
    unfoldable pub search_nonces : ℕ → List (Option ℕ) → Option Best → Option Best
    unfolding try_nonce
    search_nonces state_root [] best = best
    search_nonces state_root (none ∷ rest) best = search_nonces state_root rest best
    search_nonces state_root (some nonce ∷ rest) best =
        search_nonces state_root rest (try_nonce state_root nonce best)

    -- `none` where `Mine` returns an error.
    unfoldable pub mine : ℕ → ℕ → List (Option ℕ) → Option Checkpoint
    unfolding search_nonces build_checkpoint
    mine state_root prev_checksum draws = elim (search_nonces state_root draws none) [
      | none ↦ none
      | some b ↦ build_checkpoint state_root prev_checksum b.best_nonce b.best_hash
    ]
