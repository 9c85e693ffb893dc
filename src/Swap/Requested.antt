-- ===== src/Swap/Requested.antt =====
-- internal/swap/daemon.go: the requests, over the swaps and their marks.
use tylium.Prelude.{
  ℕ, ◌+◌, ◌<◌, not, ◌&&◌, Option, none, some, List, ◌==◌, ltb, ◌≡◌, refl, arith, ==→eq, ==_self,
}
use tylium.Prelude.Words.{ℤ, add64}
use tylium.Prelude.Cases.{if-keeps, option-keeps}
use tylium.Types.{caller_id}
use tylium.Swap.{
  Swap, find, Daemon, DiskOps, Answers, Action, add_hold_invoice, set_hash, act, buy_sats,
}
use tylium.Swap.Client.{HtlcInfo, get_htlc}
use tylium.Swap.Submit.{lock_htlc}
use tylium.Swap.Requests.{
  Reply, after, track, buy_swap, sell_swap, tracking, reserve_buy, open_buy, finish_buy,
  reserve_sell, refuse_sell, finish_sell, BuyResponse,
}
use tylium.Swap.Calls.{Calls-keep, lock_htlc-Calls}
use tylium.Swap.Tracked.{IsTracked, again_Tracked, find-put, put-Keyed}

module _ {D : Type 0} where
  reserve-Tracked :
      (d : Daemon D) (h : ℕ)
      → IsTracked d
      → d.active_hashes h ≡ none
      → IsTracked (set_hash h (some 0) d)
  reserve-Tracked d h t free = record {
    owned = λ j s f up. ground (arith, t.owned j s f up, ==→eq h s.hash, free);
    named = t.named;
    keyed = t.keyed;
  }

  unreserve-Tracked :
      (d : Daemon D) (h : ℕ)
      → IsTracked d
      → d.active_hashes h ≡ some 0
      → IsTracked (set_hash h none d)
  unreserve-Tracked d h t held = record {
    owned = λ j s f up. ground (arith, t.owned j s f up, t.named j s f, ==→eq h s.hash, held);
    named = t.named;
    keyed = t.keyed;
  }

  -- A hash is reserved, and the last ID that was handed out is not in use.
  record Reserved (h n : ℕ) (d : Daemon D) : Type 0 where
    pub tracked : IsTracked d
    pub held : d.active_hashes h ≡ some 0
    pub below : (id : ℕ) (s : Swap) → find id d.swaps ≡ some s → id < d.seq
    pub last : d.seq ≡ n
    pub handed : 0 < n

  next-Reserved :
      (h : ℕ) (d : Daemon D)
      → IsTracked d
      → d.active_hashes h ≡ some 0
      → Reserved h (d.seq + 1) (record d { seq = d.seq + 1 })
  next-Reserved h d t held = record {
    tracked = record {
      owned = t.owned;
      named = λ id s f. ((t.named id s f).0, ground (arith, t.named id s f));
      keyed = t.keyed;
    };
    held = held;
    below = λ id s f. ground (arith, t.named id s f);
    last = refl;
    handed = ground arith;
  }

  again_Reserved :
      (h n : ℕ) (d : Daemon D) (actions : List Action)
      → Reserved h n d
      → Reserved h n (record d { actions = actions })
  again_Reserved h n d actions r = record {
    tracked = again_Tracked d d.disk actions r.tracked;
    held = r.held;
    below = r.below;
    last = r.last;
    handed = r.handed;
  }

module _ (sha256 : List ℕ → ℕ) {D : Type 0} (disk : DiskOps D) where
  -- A new swap takes the place of the reservation.
  track-Tracked :
      (d : Daemon D) (s : Swap) → Reserved s.hash s.id d → IsTracked (track sha256 disk s d)
  track-Tracked d s r = record {
    owned = λ j u f up. ground (
      arith,
      find-put j s d.swaps,
      ==→eq s.id j,
      r.tracked.owned j u,
      r.tracked.named j u,
      ==→eq s.hash u.hash,
      ==_self s.hash,
      r.held,
    );
    named = λ j u f.
        ground (arith, find-put j s d.swaps, ==→eq s.id j, r.tracked.named j u, r.last, r.handed);
    keyed = put-Keyed s d.swaps r.tracked.keyed;
  }

  pub reserve_buy-Tracked :
      (hash amount : ℕ) (d : Daemon D)
      → IsTracked d
      → IsTracked (after (reserve_buy sha256 disk hash amount d))
  unfolding reserve_buy
  reserve_buy-Tracked hash amount d t =
      if-keeps P (amount == 0) (λ e. t)
        λ e.
          if-keeps P (ltb 0 d.max_swap_size && ltb d.max_swap_size amount) (λ e. t)
            λ e. option-keeps P (d.active_hashes hash) (λ e. reserve-Tracked d hash t e) (λ id e. t)
    where
      P : Reply (Unit {0}) (Daemon D) → Type 0
      P r = IsTracked (after r)

  open_buy-Tracked :
      (a : Answers) (hash recipient amount timelock : ℕ) (d : Daemon D)
      → IsTracked d
      → d.active_hashes hash ≡ some 0
      → IsTracked (after (open_buy sha256 disk a hash recipient amount timelock d))
  unfolding open_buy
  open_buy-Tracked a hash recipient amount timelock d t held =
      option-keeps {B = Reply BuyResponse (Daemon D)} (λ r. IsTracked (after r))
        (a.hold_invoice hash sats d₁.seq) (λ e. unreserve-Tracked asked hash start.tracked held)
        λ invoice e.
          option-keeps {B = Reply BuyResponse (Daemon D)} (λ r. IsTracked (after r)) locked.0
            (λ e.
              unreserve-Tracked _ hash (again_Reserved hash d₁.seq locked.1 _ sent).tracked
                sent.held)
            λ x e.
              track-Tracked locked.1
                (buy_swap sha256 disk d₁ d₁.seq hash recipient amount timelock invoice x.0) sent
    where
      d₁ : Daemon D
      d₁ = record d { seq = d.seq + 1 }

      sats : ℤ
      sats = buy_sats d.fee_bps amount

      asked : Daemon D
      asked = act (add_hold_invoice hash sats d₁.seq) d₁

      start : Reserved hash d₁.seq asked
      start = again_Reserved hash d₁.seq d₁ _ (next-Reserved hash d t held)

      locked : Option (ℕ × ℕ) × Daemon D
      locked = lock_htlc sha256 a recipient hash amount timelock asked

      sent : Reserved hash d₁.seq locked.1
      sent =
          Calls-keep (Reserved hash d₁.seq) (λ e d'. again_Reserved hash d₁.seq d' _) asked locked.1
            (lock_htlc-Calls sha256 a recipient hash amount timelock asked) start

  pub finish_buy-Tracked :
      (checked a : Answers) (hash recipient amount : ℕ) (d : Daemon D)
      → IsTracked d
      → d.active_hashes hash ≡ some 0
      → IsTracked (after (finish_buy sha256 disk checked a hash recipient amount d))
  unfolding finish_buy
  finish_buy-Tracked checked a hash recipient amount d t held =
      option-keeps P (checked.account d.addr) (λ e. freed)
        λ x e.
          if-keeps P (ltb x.1 amount) (λ e. freed)
            λ e.
              option-keeps P a.height (λ e. freed)
                λ height e.
                  open_buy-Tracked a hash recipient amount (add64 height d.timelock) d t held
    where
      P : Reply BuyResponse (Daemon D) → Type 0
      P r = IsTracked (after r)

      freed : IsTracked (set_hash hash none d)
      freed = unreserve-Tracked d hash t held

  pub reserve_sell-Tracked :
      (a : Answers) (htlc_id : ℕ) (d : Daemon D)
      → IsTracked d
      → IsTracked (after (reserve_sell sha256 disk a htlc_id d))
  unfolding reserve_sell
  reserve_sell-Tracked a htlc_id d t =
      option-keeps P (get_htlc a htlc_id) (λ e. t)
        λ htlc e.
          if-keeps P (not (htlc.status == 0)) (λ e. t)
            λ e.
              if-keeps P (not (htlc.recipient_id == caller_id d.addr)) (λ e. t)
                λ e.
                  option-keeps P (d.active_hashes htlc.hashlock)
                    (λ free.
                      option-keeps P (tracking htlc_id d.swaps)
                        (λ e. reserve-Tracked d htlc.hashlock t free) (λ id e. t))
                    (λ id e. t)
    where
      P : Reply HtlcInfo (Daemon D) → Type 0
      P r = IsTracked (after r)

  pub finish_sell-Tracked :
      (a : Answers) (htlc_id : ℕ) (htlc : HtlcInfo) (invoice : List ℕ) (d : Daemon D)
      → IsTracked d
      → d.active_hashes htlc.hashlock ≡ some 0
      → IsTracked (after (finish_sell sha256 disk a htlc_id htlc invoice d))
  unfolding finish_sell
  finish_sell-Tracked a htlc_id htlc invoice d t held =
      option-keeps P (refuse_sell sha256 disk a htlc invoice d.fee_bps)
        (λ e.
          track-Tracked d₁ (sell_swap sha256 disk d₁ d₁.seq htlc_id htlc invoice)
            (next-Reserved htlc.hashlock d t held))
        (λ x e. unreserve-Tracked d htlc.hashlock t held)
    where
      P : Reply ℕ (Daemon D) → Type 0
      P r = IsTracked (after r)

      d₁ : Daemon D
      d₁ = record d { seq = d.seq + 1 }
