-- ===== src/Swap/Restored.antt =====
-- internal/swap/daemon.go: the swaps and their marks after a restart.
use tylium.Prelude.{
  ℕ, ◌≤◌, true, false, ◌&&◌, Option, none, some, List, [], ◌∷◌, ◌==◌, ◌≡◌, refl, sym, ap, ◌∙◌,
  arith, ==→eq, ==_self, Option-cases, inl, inr, if◌then◌else◌,
}
use mathlib.Core.Path.{subst}
use tylium.Prelude.Words.{ℤ}
use tylium.Swap.{Swap, find, is_active, Daemon, DiskOps}
use tylium.Swap.Restore.{
  new_daemon, restore_preimage, restore_swaps, rebuild_hashes, max_seq, load_swaps,
}
use tylium.Swap.Tracked.{IsTracked, Keyed, find-id}

-- Only the swap under `id` is unfinished with the hash.
abbrev Alone : List Swap → ℕ → ℕ → Type 0
Alone swaps id h =
    (j : ℕ) (t : Swap) → find j swaps ≡ some t → is_active t.state ≡ true → t.hash ≡ h → j ≡ id

find_tail :
    (j : ℕ) (s t : Swap) (swaps : List Swap)
    → find s.id swaps ≡ none
    → find j swaps ≡ some t
    → find j (s ∷ swaps) ≡ some t
unfolding find
find_tail j s t swaps apart f = ground (arith, apart, f, ==→eq s.id j)

Alone-tail :
    (s : Swap) (swaps : List Swap) (id h : ℕ)
    → find s.id swaps ≡ none
    → Alone (s ∷ swaps) id h
    → Alone swaps id h
Alone-tail s swaps id h apart only j t f up same = only j t (find_tail j s t swaps apart f) up same

-- Without an unfinished swap of the hash its mark is as it was.
rebuild_hashes-none :
    (swaps : List Swap) (hashes : ℕ → Option ℕ) (id h : ℕ)
    → Keyed swaps
    → Alone swaps id h
    → find id swaps ≡ none
    → rebuild_hashes swaps hashes h ≡ hashes h
unfolding rebuild_hashes
rebuild_hashes-none [] hashes id h k only absent = refl
rebuild_hashes-none (s ∷ swaps) hashes id h (apart, k) only absent = ground (
  arith,
  rebuild_hashes-none swaps
      (λ k. if is_active s.state && (s.hash == k) then some s.id else hashes k) id h k
      (Alone-tail s swaps id h apart only) rest,
  other,
)
  where
    rest : find id swaps ≡ none
    rest = unfold find in (ground (arith, absent, only))

    other : (is_active s.state && (s.hash == h)) ≡ false
    other = unfold find in (ground (arith, ==→eq s.hash h, only s.id s, ==_self s.id, absent))

rebuild_hashes-owned :
    (swaps : List Swap) (hashes : ℕ → Option ℕ) (id : ℕ) (s : Swap)
    → Keyed swaps
    → find id swaps ≡ some s
    → is_active s.state ≡ true
    → Alone swaps id s.hash
    → rebuild_hashes swaps hashes s.hash ≡ some id
unfolding rebuild_hashes
rebuild_hashes-owned [] hashes id s k f up only = absurd (unfold find in (ground (arith, f)))
rebuild_hashes-owned (t ∷ swaps) hashes id s (apart, k) f up only =
    elim (Option-cases (find id swaps)) [
      | inl absent ↦
          let here : t ≡ s = unfold find in (ground (arith, absent, f)) in
          let name : t.id ≡ id = find-id id (t ∷ swaps) t (f ∙ ap some (sym here)) in
          ground (
            arith,
            rebuild_hashes-none swaps
                (λ k. if is_active t.state && (t.hash == k) then some t.id else hashes k) id s.hash
                k (Alone-tail t swaps id s.hash apart only) absent,
            here,
            name,
            up,
            ==_self s.hash,
          )
      | inr (u, there) ↦
          rebuild_hashes-owned swaps _ id s k (there ∙ sym (find_tail id t u swaps apart there) ∙ f)
            up (Alone-tail t swaps id s.hash apart only)
    ]

max_seq-grows : (swaps : List Swap) (n : ℕ) → n ≤ max_seq swaps n
unfolding max_seq
max_seq-grows [] n = omega arith
max_seq-grows (s ∷ swaps) n = ground (arith, max_seq-grows swaps n, max_seq-grows swaps s.id)

max_seq-bound :
    (swaps : List Swap) (n id : ℕ) (s : Swap) → find id swaps ≡ some s → id ≤ max_seq swaps n
unfolding max_seq find
max_seq-bound [] n id s f = absurd (ground (arith, f))
max_seq-bound (t ∷ swaps) n id s f = ground (
  arith,
  f,
  max_seq-grows swaps t.id,
  max_seq-grows swaps n,
  max_seq-bound swaps n id s,
  max_seq-bound swaps t.id id s,
  ==→eq t.id id,
)

module _ {D : Type 0} (disk : DiskOps D) (x : D) where
  restore_preimage-same :
      (s : Swap)
      → ((restore_preimage disk x s).id ≡ s.id)
        × ((restore_preimage disk x s).hash ≡ s.hash)
        × ((restore_preimage disk x s).state ≡ s.state)
  unfolding restore_preimage
  restore_preimage-same s = ground arith

  -- A restored swap is found where it was.
  find-restore_swaps :
      (id : ℕ) (swaps : List Swap)
      → find id (restore_swaps disk x swaps)
        ≡ elim (find id swaps) [ none ↦ none | some s ↦ some (restore_preimage disk x s) ]
  unfolding find restore_swaps
  find-restore_swaps id [] = refl
  find-restore_swaps id (t ∷ swaps) =
      ground (arith, find-restore_swaps id swaps, (restore_preimage-same t).0)

  Keyed-restore_swaps : (swaps : List Swap) → Keyed swaps → Keyed (restore_swaps disk x swaps)
  unfolding restore_swaps
  Keyed-restore_swaps [] k = tt
  Keyed-restore_swaps (s ∷ swaps) (apart, k) = (
    ap (λ i. find i (restore_swaps disk x swaps)) (restore_preimage-same s).0
        ∙ ground (arith, find-restore_swaps s.id swaps, apart),
    Keyed-restore_swaps swaps k,
  )

  -- A restart on the swaps of a daemon that is tracked.
  pub load_swaps-Tracked :
      (d : Daemon D)
      → IsTracked d
      → (fee_bps : ℤ) (timelock max_swap_size addr : ℕ) → disk.read_swaps x ≡ some d.swaps
      → IsTracked (load_swaps disk (new_daemon fee_bps timelock max_swap_size addr (some x)))
  unfolding load_swaps new_daemon
  load_swaps-Tracked d t fee_bps timelock max_swap_size addr saved =
      subst IsTracked {x = loaded} (ground (arith, saved)) (record {
        owned = λ id s f up.
            let (u, there, same) = was id s f in
            ap (rebuild_hashes d.swaps (λ h. none))
              (ap (λ (r : Swap). r.hash) same ∙ (restore_preimage-same u).1)
            ∙ rebuild_hashes-owned d.swaps (λ h. none) id u t.keyed there (alive u s same up)
                (only id u there (alive u s same up));
        named = λ id s f.
            let (u, there, same) = was id s f in
            ((t.named id u there).0, max_seq-bound d.swaps 0 id u there);
        keyed = Keyed-restore_swaps d.swaps t.keyed;
      })
    where
      loaded : Daemon D
      loaded = record (new_daemon fee_bps timelock max_swap_size addr (some x)) {
        swaps = restore_swaps disk x d.swaps;
        active_hashes = rebuild_hashes d.swaps (λ h. none);
        seq = max_seq d.swaps 0;
      }

      was :
          (id : ℕ) (s : Swap)
          → find id (restore_swaps disk x d.swaps) ≡ some s
          → (u : Swap) × (find id d.swaps ≡ some u) × (s ≡ restore_preimage disk x u)
      was id s f = elim (Option-cases (find id d.swaps)) [
        | inl absent ↦ absurd (ground (arith, find-restore_swaps id d.swaps, absent, f))
        | inr (u, there) ↦ (u, there, ground (arith, find-restore_swaps id d.swaps, there, f))
      ]

      alive :
          (u s : Swap)
          → s ≡ restore_preimage disk x u
          → is_active s.state ≡ true
          → is_active u.state ≡ true
      alive u s same up =
          ap is_active (sym (ap (λ (r : Swap). r.state) same ∙ (restore_preimage-same u).2)) ∙ up

      only :
          (id : ℕ) (u : Swap)
          → find id d.swaps ≡ some u
          → is_active u.state ≡ true
          → Alone d.swaps id u.hash
      only id u there up j v f up' same =
          ground (arith, t.owned j v f up', t.owned id u there up, same)
