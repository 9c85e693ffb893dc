-- ===== src/Swap/Amounts.antt =====
-- internal/swap/daemon.go: Go's int64, and the amounts with the fee.
use tylium.Prelude.{ℕ, zero, suc, ◌-◌, ◌/◌, ◌%◌, Bool, true, false, ltb, if◌then◌else◌}
use tylium.Prelude.Words.{ℤ, pos, negsuc, int_of_u64, add64, sub64, mul64}

-- The two's complement of an int64.
abbrev pub u64_of_int : ℤ → ℕ
u64_of_int (pos n) = n % 18446744073709551616
u64_of_int (negsuc n) = 18446744073709551615 - n % 18446744073709551616

abbrev pub neg : ℕ → ℤ
neg zero = pos 0
neg (suc n) = negsuc n

-- `a / n` for n above zero: towards zero.
abbrev pub div_int : ℤ → ℕ → ℤ
div_int (pos a) n = pos (a / n)
div_int (negsuc a) n = neg (suc a / n)

abbrev pub lt_int : ℤ → ℤ → Bool
lt_int (pos a) (pos b) = ltb a b
lt_int (pos a) (negsuc b) = false
lt_int (negsuc a) (pos b) = true
lt_int (negsuc a) (negsuc b) = ltb b a

-- The amount in satoshis that a buyer is asked for: one to one, and the fee on top.
unfoldable pub buy_sats : ℤ → ℕ → ℤ
buy_sats fee_bps amount =
    if lt_int (pos 0) fee_bps
    then div_int (int_of_u64 (mul64 amount (add64 10000 (u64_of_int fee_bps)))) 10000
    else int_of_u64 amount

-- The most that the daemon pays a seller: one to one, less the fee.
unfoldable pub sell_sats : ℤ → ℕ → ℤ
sell_sats fee_bps amount =
    if lt_int (pos 0) fee_bps
    then div_int (int_of_u64 (mul64 amount (sub64 10000 (u64_of_int fee_bps)))) 10000
    else int_of_u64 amount
