-- ===== src/Base/Bounds.antt =====
-- Bounds of the numbers that the readers of Base/Texts give.
use Prim.Native.Nat.{◌^◌, ◌<◌}
use mathlib.Core.Bool.{Bool, false}
use mathlib.Core.Path.{◌≡◌}
use native.Mathlib.Omega.{arith}
use scx_slam_fresh.Base.Texts.{Text, ℤ, less, Digits, to_unsigned}

abbrev pub Within : ℤ → ℤ → ℤ → Type 0
Within low high v = (less v low ≡ false) × (less high v ≡ false)

pub to_unsigned_range :
    (negative : Bool) (d : Digits) (text : Text) → (to_unsigned negative d text).value < 2 ^ 64
unfolding to_unsigned
to_unsigned_range negative d text = ground arith
