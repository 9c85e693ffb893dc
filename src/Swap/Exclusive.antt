-- ===== src/Swap/Exclusive.antt =====
-- internal/swap/daemon.go: the daemon over time. Requests, payments, claims and checks interleave where
-- the mutex is free, and a restart reads the swaps back.
use tylium.Prelude.{ℕ, true, Option, some, List, ◌≡◌, ap, arith}
use tylium.Prelude.Words.{ℤ}
use tylium.Swap.{
  htlc_locked, payment_in_flight, claimed, settled, update_state, Swap, find, is_active, Daemon,
  DiskOps, Answers,
}
use tylium.Swap.Client.{HtlcInfo}
use tylium.Swap.Submit.{claim_htlc}
use tylium.Swap.Requests.{after, reserve_buy, finish_buy, reserve_sell, finish_sell}
use tylium.Swap.Monitor.{start_payment, take_payment, check_swap}
use tylium.Swap.Restore.{new_daemon, load_swaps}
use tylium.Swap.Tracked.{IsTracked, update_state-Tracked}
use tylium.Swap.Requested.{
  reserve_buy-Tracked, finish_buy-Tracked, reserve_sell-Tracked, finish_sell-Tracked,
}
use tylium.Swap.Monitored.{
  start_payment-Tracked, take_payment-Tracked, claim_htlc-Tracked, check_swap-Tracked,
}
use tylium.Swap.Restored.{load_swaps-Tracked}

module _ (sha256 : List ℕ → ℕ) {D : Type 0} (disk : DiskOps D) where
  -- What happens while nothing else touches the swap in question. A request goes on where its hash is
  -- reserved. The payment of a sell goes on by the state of the swap, its claim is sent at any time,
  -- and the swap is settled behind a claim only where it is still claimed: `executeSell` and the
  -- monitor do not look again, so that the second of them can settle a swap that is over. A check of
  -- the monitor is one step. A restart finds on disk the swaps that the daemon had.
  pub data Step (d : Daemon D) : Daemon D → Type 0 where
    buy_reserved : (hash amount : ℕ) → Step d (after (reserve_buy sha256 disk hash amount d))
    buy_finished :
        (checked a : Answers) (hash recipient amount : ℕ)
        → d.active_hashes hash ≡ some 0
        → Step d (after (finish_buy sha256 disk checked a hash recipient amount d))
    sell_reserved :
        (a : Answers) (htlc_id : ℕ) → Step d (after (reserve_sell sha256 disk a htlc_id d))
    sell_finished :
        (a : Answers) (htlc_id : ℕ) (htlc : HtlcInfo) (invoice : List ℕ)
        → d.active_hashes htlc.hashlock ≡ some 0
        → Step d (after (finish_sell sha256 disk a htlc_id htlc invoice d))
    payment_started :
        (s : Swap)
        → find s.id d.swaps ≡ some s
        → s.state ≡ htlc_locked
        → Step d (start_payment sha256 disk s d)
    payment_answered :
        (a : Answers) (s : Swap)
        → find s.id d.swaps ≡ some s
        → s.state ≡ payment_in_flight
        → Step d (take_payment sha256 disk a s d).1
    claim_made :
        (a : Answers) (htlc_id preimage : ℕ) → Step d (claim_htlc sha256 a htlc_id preimage d).1
    claim_noted :
        (s : Swap)
        → find s.id d.swaps ≡ some s
        → s.state ≡ claimed
        → Step d (update_state disk s.id settled d)
    swap_checked : (seen a : Answers) (id : ℕ) → Step d (check_swap sha256 disk seen a id d)
    restarted :
        (x : D) (fee_bps : ℤ) (timelock max_swap_size addr : ℕ)
        → disk.read_swaps x ≡ some d.swaps
        → Step d (load_swaps disk (new_daemon fee_bps timelock max_swap_size addr (some x)))

  infixl 5 ◌then◌
  pub data Run (d : Daemon D) : Daemon D → Type 0 where
    stop : Run d d
    ◌then◌ : {d' d'' : Daemon D} → Run d d' → Step d' d'' → Run d d''

  Step-Tracked : (d d' : Daemon D) → Step d d' → IsTracked d → IsTracked d'
  Step-Tracked d d' (buy_reserved hash amount) t = reserve_buy-Tracked sha256 disk hash amount d t
  Step-Tracked d d' (buy_finished checked a hash recipient amount held) t =
      finish_buy-Tracked sha256 disk checked a hash recipient amount d t held
  Step-Tracked d d' (sell_reserved a htlc_id) t = reserve_sell-Tracked sha256 disk a htlc_id d t
  Step-Tracked d d' (sell_finished a htlc_id htlc invoice held) t =
      finish_sell-Tracked sha256 disk a htlc_id htlc invoice d t held
  Step-Tracked d d' (payment_started s found waits) t =
      start_payment-Tracked sha256 disk s d
        (record { tracked = t; found = found; active = ap is_active waits })
  Step-Tracked d d' (payment_answered a s found waits) t =
      take_payment-Tracked sha256 disk a s d
        (record { tracked = t; found = found; active = ap is_active waits })
  Step-Tracked d d' (claim_made a htlc_id preimage) t =
      claim_htlc-Tracked sha256 disk a htlc_id preimage d t
  Step-Tracked d d' (claim_noted s found waits) t =
      update_state-Tracked disk s settled d
        (record { tracked = t; found = found; active = ap is_active waits })
  Step-Tracked d d' (swap_checked seen a id) t = check_swap-Tracked sha256 disk seen a id d t
  Step-Tracked d d' (restarted x fee_bps timelock max_swap_size addr saved) t =
      load_swaps-Tracked disk x d t fee_bps timelock max_swap_size addr saved

  pub Run-Tracked : (d d' : Daemon D) → Run d d' → IsTracked d → IsTracked d'
  Run-Tracked d d' stop t = t
  Run-Tracked d d' (run then step) t = Step-Tracked _ d' step (Run-Tracked d _ run t)

  pub new_daemon-Tracked :
      (fee_bps : ℤ) (timelock max_swap_size addr : ℕ) (dir : Option D)
      → IsTracked (new_daemon fee_bps timelock max_swap_size addr dir)
  unfolding new_daemon find
  new_daemon-Tracked fee_bps timelock max_swap_size addr dir = record {
    owned = λ id s f up. absurd (ground (arith, f));
    named = λ id s f. absurd (ground (arith, f));
    keyed = tt;
  }

  -- For a daemon that starts without swaps, after any order of reservations, requests that go on,
  -- payments, claims, checks and restarts, an unfinished swap is the only one with its hash, and the
  -- hash is marked with the ID of the swap. Each check of the monitor is one step, a sell is settled
  -- behind a claim only while it is claimed, and a restart finds on disk the swaps that the daemon had.
  pub Run-Exclusive :
      (fee_bps : ℤ) (timelock max_swap_size addr : ℕ) (dir : Option D) (d : Daemon D)
      → Run (new_daemon fee_bps timelock max_swap_size addr dir) d
      → (i j : ℕ) (s t : Swap) → find i d.swaps ≡ some s
      → find j d.swaps ≡ some t
      → is_active s.state ≡ true
      → is_active t.state ≡ true
      → s.hash ≡ t.hash
      → (i ≡ j) × (d.active_hashes s.hash ≡ some i)
  Run-Exclusive fee_bps timelock max_swap_size addr dir d run i j s t f g up also same =
      let tracked =
        Run-Tracked _ d run (new_daemon-Tracked fee_bps timelock max_swap_size addr dir) in
      (
        ground (arith, tracked.owned i s f up, tracked.owned j t g also, same),
        tracked.owned i s f up,
      )
