-- ===== src/Node/Forks.antt =====
-- Where a fork of the Bitcoin chain is found, of internal/node/node.go.
use tylium.Prelude.{
  ℕ, zero, suc, ◌+◌, ◌-◌, ◌≤◌, ◌<◌, ◌≡◌, ◌≢◌, ◌⊎◌, inl, inr, refl, ap, ◌∙◌, Option, none, some,
  ◌==◌, ltb, arith, ==→eq, Option-cases, Bool-cases, List,
}
use mathlib.Core.Path.{subst}
use tylium.Types.{is_zero}
use tylium.State.Ops.{StateOps}
use tylium.Scanner.Block.{BtcBlock}
use tylium.Executor.Settle.{Registry}
use tylium.Node.Base.{TrieOps, StoreOps, Outside, no_l1_hash, no_l1_block}
use tylium.Node.Reorg.{Fork, fork_at, no_fork, fork_from, find_fork_point}

module _ (o : Outside) {S D : Type 0} (ops : StateOps S) (tries : TrieOps S) (db : StoreOps D)
    (contracts : Registry → List (ℕ × ℕ)) (chain : ℕ → Option BtcBlock) (g : ℕ) (d : D) where
  -- The stored hash of a height is not the chain's.
  abbrev pub Differs : ℕ → Type 0
  Differs k =
      (stored : ℕ) × ((block : BtcBlock) × ((db.get_l1_hash k d ≡ some stored)
          × ((chain k ≡ some block) × (stored ≢ block.hash))))

  -- There is no stored hash, or it is the chain's.
  abbrev pub Agrees : ℕ → Type 0
  Agrees k =
      (db.get_l1_hash k d ≡ some 0)
      ⊎ ((block : BtcBlock) × ((db.get_l1_hash k d ≡ some block.hash) × (chain k ≡ some block)))

  -- The highest height up to `h` that agrees, or genesis; or a read that fails at a height above it.
  abbrev pub IsFork : ℕ → Fork → Type 0
  IsFork h (fork_at f) =
      (g ≤ f)
      × (((f ≤ h) × (Agrees f ⊎ (f ≡ g))) ⊎ ((f ≡ g) × (h < g)))
      × ((k : ℕ) → f < k → k ≤ h → Differs k)
  IsFork h (no_fork e) =
      (k : ℕ) × ((g ≤ k) × ((k ≤ h) × ((db.get_l1_hash k d ≡ none) ⊎ (chain k ≡ none))))

  IsFork-up : (h : ℕ) (x : Fork) → g ≤ h → 0 < g → Differs h → IsFork (h - 1) x → IsFork h x
  IsFork-up h (fork_at f) le pos here (above, where_at, apart) = (above, lifted where_at, apart_up)
    where
      lifted :
          ((f ≤ h - 1) × (Agrees f ⊎ (f ≡ g))) ⊎ ((f ≡ g) × (h - 1 < g))
          → ((f ≤ h) × (Agrees f ⊎ (f ≡ g))) ⊎ ((f ≡ g) × (h < g))
      lifted (inl (under, agrees)) = inl (omega (arith, under), agrees)
      lifted (inr (same, low)) = inl (omega (arith, same, le), inr same)

      apart_up : (k : ℕ) → f < k → k ≤ h → Differs k
      apart_up k over under = elim (Bool-cases (ltb k h)) [
        | inl lower ↦ apart k over (ground (arith, lower))
        | inr top ↦ subst Differs {x = h} {y = k} (ground (arith, top, under)) here
      ]
  IsFork-up h (no_fork e) le pos here (k, (above, (below, why))) =
      (k, (above, (omega (arith, below), why)))

  fork_from-IsFork :
      (rounds h : ℕ)
      → h < rounds
      → h < 18446744073709551616
      → 0 < g
      → IsFork h (fork_from o ops tries db contracts chain g d rounds h)
  unfolding fork_from
  fork_from-IsFork zero h enough small pos = absurd (omega (arith, enough))
  fork_from-IsFork (suc rounds) h enough small pos = elim (Bool-cases (ltb h g)) [
    | inl below ↦ subst (IsFork h) {x = fork_at g} (ground (arith, below)) (
      omega arith,
      inr (refl, ground (arith, below)),
      λ k over under. absurd (ground (arith, below, over, under)),
    )
    | inr above ↦ elim (Option-cases (db.get_l1_hash h d)) [
      | inl unread ↦
          subst (IsFork h) {x = no_fork no_l1_hash} (ground (arith, above, unread))
            (h, (ground (arith, above), (omega arith, inl unread)))
      | inr (stored, there) ↦ elim (Bool-cases (is_zero stored)) [
        | inl unset ↦ subst (IsFork h) {x = fork_at h} (ground (arith, above, there, unset)) (
          ground (arith, above),
          inl (omega arith, inl (inl (there ∙ ap some (==→eq stored 0 unset)))),
          λ k over under. absurd (omega (arith, over, under)),
        )
        | inr set ↦ elim (Option-cases (chain h)) [
          | inl missing ↦
              subst (IsFork h) {x = no_fork (no_l1_block h)}
                (ground (arith, above, there, set, missing))
                (h, (ground (arith, above), (omega arith, inr missing)))
          | inr (block, shown) ↦ elim (Bool-cases (stored == block.hash)) [
            | inl same ↦
                subst (IsFork h) {x = fork_at h} (ground (arith, above, there, set, shown, same)) (
                  ground (arith, above),
                  inl (
                    omega arith,
                    inl (inr (block, (there ∙ ap some (==→eq stored block.hash same), shown))),
                  ),
                  λ k over under. absurd (omega (arith, over, under)),
                )
            | inr other ↦
                subst (IsFork h) {x = fork_from o ops tries db contracts chain g d rounds (h - 1)}
                  (ground (arith, above, there, set, shown, other))
                  (IsFork-up h (fork_from o ops tries db contracts chain g d rounds (h - 1))
                    (ground (arith, above)) pos
                    (stored, (block, (there, (shown, λ e. ground (arith, other, e)))))
                    (fork_from-IsFork rounds (h - 1) (ground (arith, above)) (omega arith) pos))
          ]
        ]
      ]
    ]
  ]

  -- With a genesis height above zero and a height from it on, `findForkPoint` ends: at the highest
  -- height up to the given one whose stored hash is the chain's or missing, or at genesis if there
  -- is none, with another hash stored at each height above; or with the error of a read.
  pub find_fork_point-IsFork :
      (h : ℕ)
      → h < 18446744073709551616
      → 0 < g
      → g ≤ h
      → IsFork h (find_fork_point o ops tries db contracts chain g d h)
  unfolding find_fork_point
  find_fork_point-IsFork h small pos le = fork_from-IsFork (h + 2) h (omega arith) small pos
