-- ===== src/Swap/Guards.antt =====
-- internal/swap/daemon.go: what holds of a sell that initSellSwap takes.
use tylium.Prelude.{
  ℕ, ◌*◌, ◌-◌, ◌/◌, ◌≤◌, false, none, some, List, ltb, length, ◌≡◌, refl, ap, ◌∙◌, arith,
  Bool-cases, Option-cases, inl, inr, ==→eq,
}
use mathlib.Core.Path.{subst}
use native.Mathlib.Nat.{mul-le-mul_left}
use tylium.Prelude.Words.{ℤ, int_of_u64, pos, negsuc, add64, sub64, mul64}
use tylium.Bytes.{from_be}
use tylium.Types.{caller_id}
use tylium.Swap.{Daemon, DiskOps, Answers, DecodedInvoice, sell_sats, lt_int, div_int, u64_of_int}
use tylium.Swap.Client.{HtlcInfo, get_htlc}
use tylium.Swap.Requests.{
  accepted, min_sell_timelock, tracking, reserve_sell, refuse_sell, finish_sell, init_sell_swap,
}

-- What the invoice and the height are.
pub record Payable (a : Answers) (info : HtlcInfo) (invoice : List ℕ) (allowed : ℤ) : Type 0 where
  pub height : ℕ
  pub at_height : a.height ≡ some height
  pub in_time : add64 height min_sell_timelock ≤ info.timelock
  pub decoded : DecodedInvoice
  pub reads : a.decode_pay_req invoice ≡ some decoded
  pub bytes : List ℕ
  pub hash_there : decoded.payment_hash ≡ some bytes
  pub hash_length : length bytes ≡ 32
  pub same_hash : from_be bytes ≡ info.hashlock
  pub affordable : lt_int allowed decoded.num_satoshis ≡ false

-- What a sell has passed.
pub record Guarded {D : Type 0} (read a : Answers) (htlc_id : ℕ) (info : HtlcInfo)
    (invoice : List ℕ) (d : Daemon D) : Type 0 where
  pub pending : info.status ≡ 0
  pub ours : info.recipient_id ≡ caller_id d.addr
  pub unused : d.active_hashes info.hashlock ≡ none
  pub untracked : tracking htlc_id d.swaps ≡ none
  pub payable : Payable a info invoice (pos info.amount)

module _ (sha256 : List ℕ → ℕ) {D : Type 0} (disk : DiskOps D) where
  refuse_sell-Payable :
      (a : Answers) (info : HtlcInfo) (invoice : List ℕ) (fee_bps : ℤ)
      → refuse_sell sha256 disk a info invoice fee_bps ≡ none
      → Payable a info invoice (sell_sats fee_bps info.amount)
  unfolding refuse_sell
  refuse_sell-Payable a info invoice fee_bps h = elim (Option-cases a.height) [
    | inl e ↦ absurd (ground (arith, e, h))
    | inr (height, e) ↦ elim (Option-cases (a.decode_pay_req invoice)) [
      | inl f ↦ absurd (ground (arith, e, f, h))
      | inr (decoded, f) ↦ elim (Option-cases decoded.payment_hash) [
        | inl g ↦ absurd (ground (arith, e, f, g, h))
        | inr (bytes, g) ↦ record {
          height = height;
          at_height = e;
          in_time = ground (arith, e, f, g, h);
          decoded = decoded;
          reads = f;
          bytes = bytes;
          hash_there = g;
          hash_length = ground (arith, e, f, g, h, ==→eq (length bytes) 32);
          same_hash = ground (arith, e, f, g, h, ==→eq (from_be bytes) info.hashlock);
          affordable = ground (arith, e, f, g, h);
        }
      ]
    ]
  ]

  -- With a fee from zero to the whole and an amount that does not overflow.
  sell_sats-le :
      (fee amount : ℕ)
      → fee ≤ 10000
      → amount ≤ 900000000000000
      → (n : ℕ) × (sell_sats (pos fee) amount ≡ pos n) × (n ≤ amount)
  unfolding sell_sats
  sell_sats-le fee amount small fits = elim (Bool-cases (ltb 0 fee)) [
    | inl e ↦ (
      p / 10000,
      ground (arith, e)
          ∙ ap (λ t. div_int (int_of_u64 (mul64 amount t)) 10000) share
          ∙ ground (arith, below),
      omega (arith, below),
    )
    | inr e ↦ (amount, ground (arith, e), omega arith)
  ]
    where
      p : ℕ
      p = amount * (10000 - fee)

      below : p ≤ amount * 10000
      below = mul-le-mul_left amount (omega arith)

      share : sub64 10000 (u64_of_int (pos fee)) ≡ 10000 - fee
      share = omega arith

  lt_int-le : (n m : ℕ) (z : ℤ) → n ≤ m → lt_int (pos n) z ≡ false → lt_int (pos m) z ≡ false
  lt_int-le n m (pos k) le h = ground arith
  lt_int-le n m (negsuc k) le h = refl

  Payable-le :
      (a : Answers) (info : HtlcInfo) (invoice : List ℕ) (n m : ℕ)
      → n ≤ m
      → Payable a info invoice (pos n)
      → Payable a info invoice (pos m)
  Payable-le a info invoice n m le p = record {
    height = p.height;
    at_height = p.at_height;
    in_time = p.in_time;
    decoded = p.decoded;
    reads = p.reads;
    bytes = p.bytes;
    hash_there = p.hash_there;
    hash_length = p.hash_length;
    same_hash = p.same_hash;
    affordable = lt_int-le n m p.decoded.num_satoshis le p.affordable;
  }

  -- A sell that is taken is over an HTLC that is pending and has the daemon as its recipient, that no
  -- unfinished swap is about, and whose hash is not in use; at least six blocks are left until its
  -- timelock; and the invoice has the hash of the HTLC and asks for no more satoshis than the HTLC
  -- holds. The fee is between zero and the whole, and the amount is at most 9 * 10 ^ 14.
  pub init_sell_swap-Guarded :
      (read a : Answers) (htlc_id id fee : ℕ) (info : HtlcInfo) (invoice : List ℕ) (d d' : Daemon D)
      → d.fee_bps ≡ pos fee
      → fee ≤ 10000
      → get_htlc read htlc_id ≡ some info
      → info.amount ≤ 900000000000000
      → init_sell_swap sha256 disk read a htlc_id invoice d ≡ accepted id d'
      → Guarded read a htlc_id info invoice d
  unfolding init_sell_swap reserve_sell finish_sell
  init_sell_swap-Guarded read a htlc_id id fee info invoice d d' fee_is small got fits h =
      elim (Option-cases (refuse_sell sha256 disk a info invoice d.fee_bps)) [
        | inr (e, f) ↦ absurd (ground (arith, got, f, h))
        | inl f ↦ record {
          pending = ground (arith, got, f, h, ==→eq info.status 0);
          ours = ground (arith, got, f, h, ==→eq info.recipient_id (caller_id d.addr));
          unused = ground (arith, got, f, h);
          untracked = ground (arith, got, f, h);
          payable =
              let (n, rest, le) = sell_sats-le fee info.amount small fits in
              Payable-le a info invoice n info.amount le (
                subst (Payable a info invoice) (ap (λ z. sell_sats z info.amount) fee_is ∙ rest)
                  (refuse_sell-Payable a info invoice d.fee_bps f));
        }
      ]
