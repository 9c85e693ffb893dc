-- ===== src/Swap/Located.antt =====
-- internal/swap/daemon.go, `verifyHTLCID`: the HTLC that is found for a swap.
use tylium.Prelude.{
  ℕ, zero, suc, ◌+◌, ◌-◌, ◌&&◌, some, ◌==◌, ◌≡◌, sym, ap, ◌∙◌, arith, Bool-cases, Option-cases, inl,
  inr, ==→eq,
}
use tylium.Prelude.Words.{add64}
use tylium.Swap.{Swap, Answers}
use tylium.Swap.Client.{HtlcInfo, get_htlc, get_next_htlc_id}
use tylium.Swap.Verify.{scan_htlcs, locate_htlc}

-- The record of the HTLC that has the hash and the amount of the swap.
pub record Matches (a : Answers) (s : Swap) (id : ℕ) : Type 0 where
  pub htlc : HtlcInfo
  pub read : get_htlc a id ≡ some htlc
  pub hashlock : htlc.hashlock ≡ s.hash
  pub amount : htlc.amount ≡ s.amount_tybtc

scan_htlcs-Matches :
    (a : Answers) (s : Swap) (n from id : ℕ) → scan_htlcs a s from n ≡ some id → Matches a s id
unfolding scan_htlcs
scan_htlcs-Matches a s zero from id h = absurd (ground (arith, h))
scan_htlcs-Matches a s (suc n) from id h = elim (Option-cases (get_htlc a from)) [
  | inl e ↦ scan_htlcs-Matches a s n (from + 1) id (ground (arith, e, h))
  | inr (x, e) ↦ elim (Bool-cases (x.hashlock == s.hash && x.amount == s.amount_tybtc)) [
    | inl same ↦
        let here : from ≡ id = ground (arith, e, same, h) in
        record {
          htlc = x;
          read = ap (get_htlc a) (sym here) ∙ e;
          hashlock = ground (arith, same, ==→eq x.hashlock s.hash);
          amount = ground (arith, same, ==→eq x.amount s.amount_tybtc);
        }
    | inr other ↦ scan_htlcs-Matches a s n (from + 1) id (ground (arith, e, other, h))
  ]
]

pub locate_htlc-Matches :
    (a : Answers) (s : Swap) (id : ℕ) → locate_htlc a s ≡ some id → Matches a s id
unfolding locate_htlc
locate_htlc-Matches a s id h = elim (Option-cases (get_htlc a s.htlc_id)) [
  | inl e ↦ absurd (ground (arith, e, h))
  | inr (x, e) ↦ elim (Bool-cases (x.amount == s.amount_tybtc && x.hashlock == s.hash)) [
    | inl same ↦
        let here : s.htlc_id ≡ id = ground (arith, e, same, h) in
        record {
          htlc = x;
          read = ap (get_htlc a) (sym here) ∙ e;
          hashlock = ground (arith, same, ==→eq x.hashlock s.hash);
          amount = ground (arith, same, ==→eq x.amount s.amount_tybtc);
        }
    | inr other ↦ elim (Option-cases (get_next_htlc_id a)) [
      | inl f ↦ absurd (ground (arith, e, other, f, h))
      | inr (counter, f) ↦
          scan_htlcs-Matches a s (counter - add64 s.htlc_id 1) (add64 s.htlc_id 1) id
            (ground (arith, e, other, f, h))
    ]
  ]
]
