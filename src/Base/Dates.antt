-- ===== src/Base/Dates.antt =====
-- Dates: an `i32` of seconds on the layer's side, an `i64` of milliseconds in a document, whose
-- arithmetic stays far inside 64 bits.
use Prim.Native.Nat.{◌+◌, ◌*◌, ◌/◌, ◌<◌, ◌^◌}
use mathlib.Core.Path.{◌≡◌}
use native.Mathlib.Omega.{arith}
use mathlib.Core.Bool.{Bool, true}
use kotlogram.Base.Tests.{ltb}
use kotlogram.Base.Int.{ℤ, pos, negsuc, neg}

-- An `i32` as an `i64`, times 1000.
unfoldable pub to_millis : ℤ → ℤ
to_millis (pos n) = pos (n * 1000)
to_millis (negsuc n) = neg (pos ((n + 1) * 1000))

-- Division of an `i64` by 1000, which rounds toward zero.
unfoldable pub div_thousand : ℤ → ℤ
div_thousand (pos n) = pos (n / 1000)
div_thousand (negsuc n) = neg (pos ((n + 1) / 1000))

-- The dates that the layer can hold.
abbrev pub IsDate : ℤ → Type 0
IsDate (pos n) = n < 2 ^ 31
IsDate (negsuc n) = n < 2 ^ 31

pub div_thousand-to_millis : (date : ℤ) → div_thousand (to_millis date) ≡ date
unfolding div_thousand to_millis
div_thousand-to_millis (pos n) = ground arith
div_thousand-to_millis (negsuc n) = ground arith

-- i32::try_from, as a test.
abbrev pub fits_i32 : ℤ → Bool
fits_i32 (pos n) = ltb n (2 ^ 31)
fits_i32 (negsuc n) = ltb n (2 ^ 31)

pub fits_i32-IsDate : (date : ℤ) → IsDate date → fits_i32 date ≡ true
fits_i32-IsDate (pos n) small = ground arith
fits_i32-IsDate (negsuc n) small = ground arith
