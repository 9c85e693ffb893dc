-- ===== src/Swap/Requests.antt =====
-- internal/swap/daemon.go: the two kinds of request, each a reservation of the hash and what is done
-- under it. The mutex is free between the two, and so other work can run there.
use tylium.Prelude.{
  ℕ, ◌+◌, true, false, ◌&&◌, not, Option, none, some, List, [], ◌∷◌, ◌==◌, ltb, length,
  if◌then◌else◌,
}
use tylium.Prelude.Words.{ℤ, add64}
use tylium.Bytes.{from_be}
use tylium.Types.{caller_id}
use tylium.Swap.{
  buy, sell, invoice_created, htlc_locked, is_active, Swap, Daemon, Answers, DiskOps,
  add_hold_invoice, cancel_invoice, act, set_hash, set_swap, persist, buy_sats, sell_sats, lt_int,
}
use tylium.Swap.Client.{HtlcInfo, get_htlc}
use tylium.Swap.Submit.{lock_htlc}

abbrev pub min_sell_timelock : ℕ
min_sell_timelock = 6

pub data SwapError : Type 0 where
  zero_amount too_large check_balance insufficient_liquidity get_height create_invoice : SwapError
  lock_failed query_htlc htlc_not_pending wrong_recipient timelock_too_short : SwapError
  decode_invoice invalid_payment_hash hash_mismatch invoice_too_large : SwapError
  hash_in_use htlc_tracked : ℕ → SwapError

pub record BuyResponse : Type 0 where
  pub swap_id : ℕ
  pub invoice : List ℕ
  pub htlc_id : ℕ
  pub l1_txid : ℕ

-- What a request is answered, and the daemon behind it.
pub data Reply (A N : Type 0) : Type 0 where
  accepted : A → N → Reply A N
  rejected : SwapError → N → Reply A N

abbrev pub after : {A N : Type 0} → Reply A N → N
after (accepted a n) = n
after (rejected e n) = n

-- The ID of an unfinished swap over the HTLC.
unfoldable pub tracking : ℕ → List Swap → Option ℕ
tracking htlc_id [] = none
tracking htlc_id (s ∷ swaps) =
    let rest = tracking htlc_id swaps in
    if s.htlc_id == htlc_id && is_active s.state then some s.id else rest

module _ (sha256 : List ℕ → ℕ) {D : Type 0} (disk : DiskOps D) where
  -- `newSwapID`
  abbrev pub new_swap_id : Daemon D → ℕ × Daemon D
  new_swap_id d = (d.seq + 1, record d { seq = d.seq + 1 })

  -- The tests of the amount, and the reservation with the empty ID.
  unfoldable pub reserve_buy : ℕ → ℕ → Daemon D → Reply (Unit {0}) (Daemon D)
  reserve_buy hash amount d =
      if amount == 0
      then rejected zero_amount d
      else if ltb 0 d.max_swap_size && ltb d.max_swap_size amount
      then rejected too_large d
      else elim (d.active_hashes hash) [
        | some id ↦ rejected (hash_in_use id) d
        | none ↦ accepted tt (set_hash hash (some 0) d)
      ]

  abbrev pub buy_swap : Daemon D → ℕ → ℕ → ℕ → ℕ → ℕ → List ℕ → ℕ → Swap
  buy_swap d id hash recipient amount timelock invoice htlc_id = record {
    id = id;
    direction = buy;
    state = invoice_created;
    hash = hash;
    preimage = 0;
    amount_tybtc = amount;
    amount_sats = buy_sats d.fee_bps amount;
    htlc_id = htlc_id;
    timelock = timelock;
    invoice = invoice;
    recipient = recipient;
    payment_failed = false;
    verified = false;
  }

  -- The swap takes the place of the reservation.
  abbrev pub track : Swap → Daemon D → Daemon D
  track s d = persist disk (set_hash s.hash (some s.id) (set_swap s d))

  -- From the creation of the invoice on.
  unfoldable pub open_buy : Answers → ℕ → ℕ → ℕ → ℕ → Daemon D → Reply BuyResponse (Daemon D)
  unfolding lock_htlc
  open_buy a hash recipient amount timelock d₀ =
      let (id, d) = new_swap_id d₀ in
      let sats = buy_sats d.fee_bps amount in
      let asked = act (add_hold_invoice hash sats id) d in
      elim (a.hold_invoice hash sats id) [
        | none ↦ rejected create_invoice (set_hash hash none asked)
        | some invoice ↦
            let (locked, d') = lock_htlc sha256 a recipient hash amount timelock asked in
            elim locked [
              | none ↦ rejected lock_failed (set_hash hash none (act (cancel_invoice hash) d'))
              | some (htlc_id, txid) ↦
                  accepted
                    (record { swap_id = id; invoice = invoice; htlc_id = htlc_id; l1_txid = txid })
                    (track (buy_swap d id hash recipient amount timelock invoice htlc_id) d')
            ]
      ]

  -- Under the reservation. `checked` answers the call for the balance.
  unfoldable pub finish_buy :
      Answers → Answers → ℕ → ℕ → ℕ → Daemon D → Reply BuyResponse (Daemon D)
  unfolding open_buy
  finish_buy checked a hash recipient amount d = elim (checked.account d.addr) [
    | none ↦ rejected check_balance (set_hash hash none d)
    | some (nonce, balance) ↦
        if ltb balance amount
        then rejected insufficient_liquidity (set_hash hash none d)
        else elim a.height [
          | none ↦ rejected get_height (set_hash hash none d)
          | some height ↦ open_buy a hash recipient amount (add64 height d.timelock) d
        ]
  ]

  unfoldable pub init_buy_swap :
      Answers → Answers → ℕ → ℕ → ℕ → Daemon D → Reply BuyResponse (Daemon D)
  unfolding reserve_buy finish_buy
  init_buy_swap checked a hash recipient amount d = elim (reserve_buy hash amount d) [
    | rejected e d' ↦ rejected e d'
    | accepted ok d' ↦ finish_buy checked a hash recipient amount d'
  ]

  -- The tests of the HTLC, and the reservation; the reply holds what was read.
  unfoldable pub reserve_sell : Answers → ℕ → Daemon D → Reply HtlcInfo (Daemon D)
  unfolding get_htlc tracking
  reserve_sell a htlc_id d = elim (get_htlc a htlc_id) [
    | none ↦ rejected query_htlc d
    | some htlc ↦
        if not (htlc.status == 0)
        then rejected htlc_not_pending d
        else if not (htlc.recipient_id == caller_id d.addr)
        then rejected wrong_recipient d
        else elim (d.active_hashes htlc.hashlock) [
          | some id ↦ rejected (hash_in_use id) d
          | none ↦ elim (tracking htlc_id d.swaps) [
            | some id ↦ rejected (htlc_tracked id) d
            | none ↦ accepted htlc (set_hash htlc.hashlock (some 0) d)
          ]
        ]
  ]

  -- The error that keeps a sell from being taken under its reservation.
  unfoldable pub refuse_sell : Answers → HtlcInfo → List ℕ → ℤ → Option SwapError
  refuse_sell a htlc invoice fee_bps = elim a.height [
    | none ↦ some get_height
    | some height ↦
        if ltb htlc.timelock (add64 height min_sell_timelock)
        then some timelock_too_short
        else elim (a.decode_pay_req invoice) [
          | none ↦ some decode_invoice
          | some decoded ↦ elim decoded.payment_hash [
            | none ↦ some invalid_payment_hash
            | some bytes ↦
                if not (length bytes == 32)
                then some invalid_payment_hash
                else if not (from_be bytes == htlc.hashlock)
                then some hash_mismatch
                else if lt_int (sell_sats fee_bps htlc.amount) decoded.num_satoshis
                then some invoice_too_large
                else none
          ]
        ]
  ]

  abbrev pub sell_swap : Daemon D → ℕ → ℕ → HtlcInfo → List ℕ → Swap
  sell_swap d id htlc_id htlc invoice = record {
    id = id;
    direction = sell;
    state = htlc_locked;
    hash = htlc.hashlock;
    preimage = 0;
    amount_tybtc = htlc.amount;
    amount_sats = sell_sats d.fee_bps htlc.amount;
    htlc_id = htlc_id;
    timelock = htlc.timelock;
    invoice = invoice;
    recipient = 0;
    payment_failed = false;
    verified = true;
  }

  unfoldable pub finish_sell : Answers → ℕ → HtlcInfo → List ℕ → Daemon D → Reply ℕ (Daemon D)
  unfolding refuse_sell
  finish_sell a htlc_id htlc invoice d = elim (refuse_sell a htlc invoice d.fee_bps) [
    | some e ↦ rejected e (set_hash htlc.hashlock none d)
    | none ↦
        let (id, d') = new_swap_id d in
        accepted id (track (sell_swap d' id htlc_id htlc invoice) d')
  ]

  -- Without the payment, which goes on in the background.
  unfoldable pub init_sell_swap : Answers → Answers → ℕ → List ℕ → Daemon D → Reply ℕ (Daemon D)
  unfolding reserve_sell finish_sell
  init_sell_swap read a htlc_id invoice d = elim (reserve_sell read htlc_id d) [
    | rejected e d' ↦ rejected e d'
    | accepted htlc d' ↦ finish_sell a htlc_id htlc invoice d'
  ]
