-- ===== src/Swap/Tracked.antt =====
-- internal/swap/daemon.go: the map of swaps and `activeHashes`, which the requests, the payments and
-- the monitor share.
use tylium.Prelude.{
  ℕ, ◌≤◌, ◌<◌, true, false, Option, none, some, List, [], ◌∷◌, ◌==◌, ◌≡◌, refl, sym, ap, ◌∙◌, arith,
  ==→eq, ==_self, Bool-cases, inl, inr, if◌then◌else◌,
}
use mathlib.Core.Path.{subst}
use tylium.Swap.{
  SwapState, Swap, find, put, is_active, Daemon, DiskOps, set_swap, set_hash, Action, update_state,
  fail_swap, swap_failed, persist, Action,
}

pub find-put :
    (id : ℕ) (s : Swap) (swaps : List Swap)
    → find id (put s swaps) ≡ (if s.id == id then some s else find id swaps)
unfolding find put
find-put id s [] = refl
find-put id s (t ∷ swaps) =
    ground (arith, find-put id s swaps, ==→eq t.id s.id, ==→eq s.id id, ==→eq t.id id)

pub find-id : (id : ℕ) (swaps : List Swap) (s : Swap) → find id swaps ≡ some s → s.id ≡ id
unfolding find
find-id id [] s h = absurd (ground arith)
find-id id (t ∷ swaps) s h = ground (arith, find-id id swaps s, ==→eq t.id id)

-- Each entry is the one that is found under its ID.
abbrev pub Keyed : List Swap → Type 0
Keyed [] = Unit
Keyed (s ∷ swaps) = (find s.id swaps ≡ none) × Keyed swaps

pub put-Keyed : (s : Swap) (swaps : List Swap) → Keyed swaps → Keyed (put s swaps)
unfolding find put
put-Keyed s [] k = (refl, tt)
put-Keyed s (t ∷ swaps) (apart, k) = elim (Bool-cases (t.id == s.id)) [
  | inl same ↦
      subst Keyed {x = s ∷ swaps} (ground (arith, same))
        (ap (λ i. find i swaps) (sym (==→eq t.id s.id same)) ∙ apart, k)
  | inr other ↦ subst Keyed {x = t ∷ put s swaps} (ground (arith, other)) (
    ground (arith, find-put t.id s swaps, ==→eq s.id t.id, other, apart, ==_self t.id),
    put-Keyed s swaps k,
  )
]

module _ {D : Type 0} where
  -- The hash of an unfinished swap is marked with its ID, and the IDs are those handed out.
  pub record IsTracked (d : Daemon D) : Type 0 where
    pub owned :
        (id : ℕ) (s : Swap)
        → find id d.swaps ≡ some s
        → is_active s.state ≡ true
        → d.active_hashes s.hash ≡ some id
    pub named : (id : ℕ) (s : Swap) → find id d.swaps ≡ some s → (0 < id) × (id ≤ d.seq)
    pub keyed : Keyed d.swaps

  -- Neither the disk nor the actions matter.
  pub again_Tracked :
      (d : Daemon D) (x : Option D) (actions : List Action)
      → IsTracked d
      → IsTracked (record d { disk = x; actions = actions })
  again_Tracked d x actions t = record { owned = t.owned; named = t.named; keyed = t.keyed }

  -- An unfinished swap as the daemon has it.
  pub record Current (s : Swap) (d : Daemon D) : Type 0 where
    pub tracked : IsTracked d
    pub found : find s.id d.swaps ≡ some s
    pub active : is_active s.state ≡ true

  pub again_Current :
      (s : Swap) (d : Daemon D) (x : Option D) (actions : List Action)
      → Current s d
      → Current s (record d { disk = x; actions = actions })
  again_Current s d x actions c = record {
    tracked = again_Tracked d x actions c.tracked;
    found = c.found;
    active = c.active;
  }

  -- Other fields of a swap are written, and it does not come back to life.
  pub set_swap-Tracked :
      (s s' : Swap) (d : Daemon D)
      → IsTracked d
      → find s.id d.swaps ≡ some s
      → s'.id ≡ s.id
      → s'.hash ≡ s.hash
      → (is_active s'.state ≡ true → is_active s.state ≡ true)
      → IsTracked (set_swap s' d)
  set_swap-Tracked s s' d t found same_id same_hash kept = record {
    owned = λ j u h up. ground (
      arith,
      find-put j s' d.swaps,
      ==→eq s'.id j,
      t.owned j u,
      t.owned s.id s found,
      kept,
      same_id,
      same_hash,
    );
    named = λ j u h.
        ground
          (arith, find-put j s' d.swaps, ==→eq s'.id j, t.named j u, t.named s.id s found, same_id);
    keyed = put-Keyed s' d.swaps t.keyed;
  }

  pub find_set_swap : (s : Swap) (d : Daemon D) → find s.id (put s d.swaps) ≡ some s
  find_set_swap s d = ground (arith, find-put s.id s d.swaps, ==_self s.id)

  pub set_swap-Current :
      (s s' : Swap) (d : Daemon D)
      → Current s d
      → s'.id ≡ s.id
      → s'.hash ≡ s.hash
      → is_active s'.state ≡ true
      → Current s' (set_swap s' d)
  set_swap-Current s s' d c same_id same_hash alive = record {
    tracked = set_swap-Tracked s s' d c.tracked c.found same_id same_hash (λ up. c.active);
    found = find_set_swap s' d;
    active = alive;
  }

  -- An unfinished swap ends, and its hash is free.
  pub end-Tracked :
      (s s' : Swap) (d : Daemon D)
      → Current s d
      → s'.id ≡ s.id
      → s'.hash ≡ s.hash
      → is_active s'.state ≡ false
      → IsTracked (set_hash s'.hash none (set_swap s' d))
  end-Tracked s s' d c same_id same_hash over = record {
    owned = λ j t h up. ground (
      arith,
      find-put j s' d.swaps,
      ==→eq s'.id j,
      c.tracked.owned j t,
      c.tracked.owned s.id s c.found c.active,
      same_id,
      same_hash,
      ==→eq s'.hash t.hash,
    );
    named = λ j t h. ground (
      arith,
      find-put j s' d.swaps,
      ==→eq s'.id j,
      c.tracked.named j t,
      c.tracked.named s.id s c.found,
      same_id,
    );
    keyed = put-Keyed s' d.swaps c.tracked.keyed;
  }

  module _ (disk : DiskOps D) where
    pub update_state-found :
        (id : ℕ) (st : SwapState) (d : Daemon D) (s : Swap)
        → find id d.swaps ≡ some s
        → update_state disk id st d
          ≡ persist disk (
              if is_active st
              then set_swap (record s { state = st }) d
              else set_hash s.hash none (set_swap (record s { state = st }) d))
    unfolding update_state
    update_state-found id st d s h = ground (arith, h)

    pub update_state-Current :
        (s : Swap) (st : SwapState) (d : Daemon D)
        → is_active st ≡ true
        → Current s d
        → Current (record s { state = st }) (update_state disk s.id st d)
    update_state-Current s st d alive c =
        let s' : Swap = record s { state = st } in
        subst (Current s')
          (sym (
            update_state-found s.id st d s c.found
            ∙ ap
                (λ b.
                  persist disk (if b then set_swap s' d else set_hash s'.hash none (set_swap s' d)))
                alive))
          (again_Current s' (set_swap s' d) _ _ (set_swap-Current s s' d c refl refl alive))

    pub update_state-Tracked :
        (s : Swap) (st : SwapState) (d : Daemon D)
        → Current s d
        → IsTracked (update_state disk s.id st d)
    update_state-Tracked s st d c = elim (Bool-cases (is_active st)) [
      | inl alive ↦ (update_state-Current s st d alive c).tracked
      | inr over ↦
          let s' : Swap = record s { state = st } in
          subst IsTracked
            (sym (
              update_state-found s.id st d s c.found
              ∙ ap
                  (λ b.
                    persist disk
                      (if b then set_swap s' d else set_hash s'.hash none (set_swap s' d)))
                  over))
            (again_Tracked (set_hash s'.hash none (set_swap s' d)) _ _
              (end-Tracked s s' d c refl refl over))
    ]

    fail_swap-found :
        (id : ℕ) (d : Daemon D) (s : Swap)
        → find id d.swaps ≡ some s
        → fail_swap disk id d
          ≡ persist disk (
              set_hash s.hash none
                (set_swap (record s { state = swap_failed; payment_failed = true }) d))
    unfolding fail_swap
    fail_swap-found id d s h = ground (arith, h)

    pub fail_swap-Tracked :
        (s : Swap) (d : Daemon D) → Current s d → IsTracked (fail_swap disk s.id d)
    fail_swap-Tracked s d c =
        let s' : Swap = record s { state = swap_failed; payment_failed = true } in
        subst IsTracked (sym (fail_swap-found s.id d s c.found)) (
          again_Tracked (set_hash s'.hash none (set_swap s' d)) _ _
            (end-Tracked s s' d c refl refl refl))
