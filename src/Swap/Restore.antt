-- ===== src/Swap/Restore.antt =====
-- internal/swap/daemon.go: `New` on a directory with swaps in it.
use tylium.Prelude.{
  ℕ, true, false, Bool, ◌&&◌, Option, none, some, List, [], ◌∷◌, ◌==◌, ltb, length, if◌then◌else◌,
}
use tylium.Prelude.Words.{ℤ}
use tylium.Bytes.{from_be}
use tylium.Swap.{sell, claimed, is_active, Swap, Daemon, DiskOps}

abbrev is_claimed_sell : Swap → Bool
is_claimed_sell s = elim s.direction [
  | sell ↦ elim s.state [ claimed ↦ true | _ ↦ false ]
  | _ ↦ false
]

-- `New` before the swaps are loaded.
unfoldable pub new_daemon : {D : Type 0} → ℤ → ℕ → ℕ → ℕ → Option D → Daemon D
new_daemon fee_bps timelock max_swap_size addr dir = record {
  fee_bps = fee_bps;
  timelock = timelock;
  max_swap_size = max_swap_size;
  addr = addr;
  disk = dir;
  swaps = [];
  seq = 0;
  active_hashes = λ h. none;
  actions = [];
}

-- The loop that rebuilds `activeHashes`.
unfoldable pub rebuild_hashes : List Swap → (ℕ → Option ℕ) → ℕ → Option ℕ
rebuild_hashes [] hashes h = hashes h
rebuild_hashes (s ∷ swaps) hashes h =
    rebuild_hashes swaps (λ k. if is_active s.state && (s.hash == k) then some s.id else hashes k) h

unfoldable pub max_seq : List Swap → ℕ → ℕ
max_seq [] n = n
max_seq (s ∷ swaps) n = max_seq swaps (if ltb n s.id then s.id else n)

module _ {D : Type 0} (disk : DiskOps D) where
  -- The preimage from its file, if it is one that is needed.
  unfoldable pub restore_preimage : D → Swap → Swap
  restore_preimage x s =
      if is_claimed_sell s && (s.preimage == 0)
      then elim (disk.read_preimage s.htlc_id x) [
        | none ↦ s
        | some bytes ↦ if length bytes == 32 then record s { preimage = from_be bytes } else s
      ]
      else s

  unfoldable pub restore_swaps : D → List Swap → List Swap
  unfolding restore_preimage
  restore_swaps x [] = []
  restore_swaps x (s ∷ swaps) = restore_preimage x s ∷ restore_swaps x swaps

  unfoldable pub load_swaps : Daemon D → Daemon D
  unfolding restore_swaps rebuild_hashes max_seq
  load_swaps d = elim d.disk [
    | none ↦ d
    | some x ↦ elim (disk.read_swaps x) [
      | none ↦ d
      | some swaps ↦ record d {
        swaps = restore_swaps x swaps;
        active_hashes = rebuild_hashes swaps d.active_hashes;
        seq = max_seq swaps d.seq;
      }
    ]
  ]
