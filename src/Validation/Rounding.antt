-- ===== src/Validation/Rounding.antt =====
-- `Decimal.quantize(Decimal("0.01"), rounding=ROUND_HALF_UP)`.
use native.Mathlib.Nat.{div-add-mod, mod-lt}
use e_commerec_operations.Base.{arith, ℕ, ◌*◌, ◌+◌, ◌/◌, ◌<◌, ◌≤◌}

-- x / m, rounded half up
unfoldable pub half_up : ℕ → ℕ → ℕ
half_up x m = (2 * x + m) / (2 * m)

pub half_up-below : (x m : ℕ) → 2 * m * half_up x m ≤ 2 * x + m
unfolding half_up
half_up-below x m = let e = div-add-mod (2 * x + m) (2 * m) in omega arith

pub half_up-above : (x m : ℕ) → 0 < m → 2 * x < 2 * m * half_up x m + m
unfolding half_up
half_up-above x m h =
    let e = div-add-mod (2 * x + m) (2 * m) in
    let r = mod-lt (2 * x + m) {m = 2 * m} (omega arith) in omega arith
