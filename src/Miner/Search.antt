-- ===== src/Miner/Search.antt =====
-- What a search for a nonce finds, of internal/miner/miner.go.
use tylium.Prelude.{
  Bool, true, false, ltb, if◌then◌else◌, ℕ, ◌-◌, ◌^◌, ◌≤◌, ◌≡◌, refl, sym, ap, ◌∙◌, inl, inr,
  Option, none, some, List, [], ◌∷◌, arith, Option-cases,
}
use mathlib.Core.Path.{subst}
use mathlib.Core.Option.{some-injective}
use tylium.Types.{Checkpoint}
use tylium.Miner.{
  distance, unsigned, attestation_of, Best, try_nonce, search_nonces, checkpoint_signing_hash,
  build_checkpoint, mine,
}

module _ (sha256 : List ℕ → ℕ) (pub_key : ℕ) (sign : ℕ → Option ℕ) where
  abbrev dist_of : ℕ → ℕ → ℕ
  dist_of root nonce = distance (attestation_of sha256 nonce root) root

  -- No nonce that was drawn is closer than this.
  abbrev pub NoneCloser : ℕ → ℕ → List (Option ℕ) → Type 0
  NoneCloser root d [] = Unit {0}
  NoneCloser root d (none ∷ rest) = NoneCloser root d rest
  NoneCloser root d (some nonce ∷ rest) = (d ≤ dist_of root nonce) × NoneCloser root d rest

  pub record IsAttested (root : ℕ) (b : Best sha256 pub_key sign) : Type 0 where
    pub hash : b.best_hash ≡ attestation_of sha256 b.best_nonce root
    pub dist : b.best_dist ≡ dist_of root b.best_nonce

  bound : Option (Best sha256 pub_key sign) → ℕ
  bound none = 2 ^ 256 - 1
  bound (some b) = b.best_dist

  NoneCloser-mono :
      (root d d' : ℕ) (draws : List (Option ℕ))
      → d ≤ d'
      → NoneCloser root d' draws
      → NoneCloser root d draws
  NoneCloser-mono root d d' [] le h = tt
  NoneCloser-mono root d d' (none ∷ rest) le h = NoneCloser-mono root d d' rest le h
  NoneCloser-mono root d d' (some nonce ∷ rest) le (here, h) =
      (omega (arith, le, here), NoneCloser-mono root d d' rest le h)

  AllAttested : ℕ → Option (Best sha256 pub_key sign) → Type 0
  AllAttested root none = Unit {0}
  AllAttested root (some b) = IsAttested root b

  if-kept : {A : Type 0} (P : A → Type 0) (b : Bool) {x y : A} → P x → P y → P (if b then x else y)
  if-kept P true px py = px
  if-kept P false px py = py

  try_nonce-Attested :
      (root nonce : ℕ) (best : Option (Best sha256 pub_key sign))
      → AllAttested root best
      → AllAttested root (try_nonce sha256 pub_key sign root nonce best)
  unfolding try_nonce AllAttested attestation_of distance
  try_nonce-Attested root nonce best h =
      if-kept (AllAttested root)
        (ltb (dist_of root nonce)
          (elim best as (λ x. ℕ) [ none ↦ 2 ^ 256 - 1 | some b ↦ b.best_dist ]))
        (record { hash = refl; dist = refl }) h

  try_nonce-bound :
      (root nonce : ℕ) (best : Option (Best sha256 pub_key sign))
      → (bound (try_nonce sha256 pub_key sign root nonce best) ≤ bound best)
        × (bound (try_nonce sha256 pub_key sign root nonce best) ≤ dist_of root nonce)
  unfolding try_nonce bound
  try_nonce-bound root nonce none = ground arith
  try_nonce-bound root nonce (some b) = ground arith

  search-Attested :
      (root : ℕ) (draws : List (Option ℕ)) (best : Option (Best sha256 pub_key sign))
      → AllAttested root best
      → AllAttested root (search_nonces sha256 pub_key sign root draws best)
  unfolding search_nonces
  search-Attested root [] best h = h
  search-Attested root (none ∷ rest) best h = search-Attested root rest best h
  search-Attested root (some nonce ∷ rest) best h =
      search-Attested root rest (try_nonce sha256 pub_key sign root nonce best)
        (try_nonce-Attested root nonce best h)

  search-bound :
      (root : ℕ) (draws : List (Option ℕ)) (best : Option (Best sha256 pub_key sign))
      → (bound (search_nonces sha256 pub_key sign root draws best) ≤ bound best)
        × NoneCloser root (bound (search_nonces sha256 pub_key sign root draws best)) draws
  unfolding search_nonces
  search-bound root [] best = (omega arith, tt)
  search-bound root (none ∷ rest) best = search-bound root rest best
  search-bound root (some nonce ∷ rest) best =
      let (lower, closer) =
        search-bound root rest (try_nonce sha256 pub_key sign root nonce best) in
      let (from_best, from_nonce) = try_nonce-bound root nonce best in
      (omega (arith, lower, from_best), (omega (arith, lower, from_nonce), closer))

  pub record Mined (root prev : ℕ) (draws : List (Option ℕ)) (cp : Checkpoint) : Type 0 where
    pub for_root : cp.state_root ≡ root
    pub after_prev : cp.prev_checksum ≡ prev
    pub attested : cp.attestation_hash ≡ attestation_of sha256 cp.miner_nonce root
    pub closest : NoneCloser root (distance cp.attestation_hash root) draws
    pub key : cp.miner_pub_key ≡ pub_key
    pub signed : sign (checkpoint_signing_hash sha256 cp) ≡ some cp.signature

  -- The two ways in which `mine` ends, with what the search has found.
  build-Mined :
      (root prev : ℕ) (draws : List (Option ℕ)) (b : Best sha256 pub_key sign) (cp : Checkpoint)
      → IsAttested root b
      → NoneCloser root b.best_dist draws
      → build_checkpoint sha256 pub_key sign root prev b.best_nonce b.best_hash ≡ some cp
      → Mined root prev draws cp
  unfolding build_checkpoint checkpoint_signing_hash
  build-Mined root prev draws b cp h closer e =
      elim (Option-cases (
        sign (
          checkpoint_signing_hash sha256
            (unsigned sha256 root prev b.best_nonce b.best_hash pub_key)))) [
              | inl refused ↦ ground (arith, refused)
              | inr (sig, signed) ↦
                  subst (Mined root prev draws)
                    (some-injective _ _ (
                      sym (
                        ap
                          (λ o. elim o [
                            | none ↦ none
                            | some x ↦
                                some
                                  (record (unsigned sha256 root prev b.best_nonce b.best_hash
                                    pub_key) { signature = x })
                          ])
                          signed)
                      ∙ e))
                    (record {
                      for_root = refl;
                      after_prev = refl;
                      attested = h.hash;
                      closest =
                          subst (λ d. NoneCloser root d draws)
                            (h.dist ∙ ap (λ x. distance x root) (sym h.hash)) closer;
                      key = refl;
                      signed = signed;
                    })
            ]

  -- A checkpoint that `Mine` returns is for the state root and the previous checksum it was asked
  -- for, its attestation is the hash of its nonce and the root, no nonce that was drawn gives a hash
  -- closer to the root, and its signature is the miner's own.
  pub mine-Mined :
      (root prev : ℕ) (draws : List (Option ℕ)) (cp : Checkpoint)
      → mine sha256 pub_key sign root prev draws ≡ some cp
      → Mined root prev draws cp
  unfolding mine bound AllAttested
  mine-Mined root prev draws cp e =
      let attested = search-Attested root draws none tt in
      let bounded = search-bound root draws none in
      elim (Option-cases (search_nonces sha256 pub_key sign root draws none)) [
        | inl nothing ↦ ground (arith, nothing)
        | inr (b, found) ↦
            build-Mined root prev draws b cp (subst (AllAttested root) found attested)
              (subst (λ o. NoneCloser root (bound o) draws) found bounded.1)
              (ground (arith, found, e))
      ]
