-- ===== src/Sequence/Time.antt =====
-- crates/raynet-core/src/sequence.rs: `time_diff`, on ticks of 26 bits.
use raynet.Prelude.{ℕ, ◌+◌, ◌-◌, ◌%◌, ◌^◌, ◌≤◌, ◌<◌, ◌≡◌, arith, leb, if◌then◌else◌, sub32, IsU32}
use raynet.Prelude.Int.{ℤ, pos, negsuc, sub_ℕ, pos_part, neg_part, ◌≤ℤ◌}
use raynet.Wire.Layout.{time_bits}

-- TS_SHIFT, MAX_PAST_TICKS and MAX_FUTURE_TICKS.
abbrev pub ts_shift : ℕ
ts_shift = 10

abbrev pub max_past_ticks : ℕ
max_past_ticks = 645

abbrev pub max_future_ticks : ℕ
max_future_ticks = 59

-- `later.wrapping_sub(earlier) & TIME_MASK`, read as a signed number of 26 bits.
unfoldable pub time_diff : ℕ → ℕ → ℤ
time_diff later earlier =
    let difference = sub32 later earlier % 2 ^ time_bits in
    if leb (2 ^ (time_bits - 1)) difference
    then sub_ℕ difference (2 ^ time_bits)
    else pos difference

-- The difference of two 32-bit ticks is the number in [-2^25, 2^25) that leads from the earlier
-- tick to the later one, modulo 2^26.
pub time_diff_modular :
    (later earlier : ℕ)
    → IsU32 later
    → IsU32 earlier
    → let d = time_diff later earlier in
      (negsuc (2 ^ 25 - 1) ≤ℤ d)
      × (d ≤ℤ pos (2 ^ 25 - 1))
      × ((earlier + pos_part d + 2 ^ 26 - neg_part d) % 2 ^ 26 ≡ later % 2 ^ 26)
unfolding time_diff
time_diff_modular later earlier h k = (ground arith, ground arith, ground arith)

-- A step forward of less than half the period is measured exactly, also across the wrap.
pub time_diff_forward :
    (tick step : ℕ)
    → tick < 2 ^ 26
    → step < 2 ^ 25
    → time_diff ((tick + step) % 2 ^ 26) tick ≡ pos step
unfolding time_diff
time_diff_forward tick step h k = ground arith

pub time_diff_backward :
    (tick step : ℕ)
    → tick < 2 ^ 26
    → 0 < step
    → step ≤ 2 ^ 25
    → time_diff tick ((tick + step) % 2 ^ 26) ≡ negsuc (step - 1)
unfolding time_diff
time_diff_backward tick step h k l = ground arith
