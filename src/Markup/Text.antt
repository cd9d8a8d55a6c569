-- ===== src/Markup/Text.antt =====
-- A Rust text, as the bytes that it holds, and the test of `String::from_utf8`.
use kotlogram.Base.{ℕ, zero, suc, Bool, true, false, ◌&&◌, List, [], ◌∷◌, Option, none, some, leb}
use kotlogram.Base.{if◌then◌else◌}

abbrev pub Text : Type 0
Text = List ℕ

-- The bytes that go on with a character: how many, and the range of the first of them.
abbrev pub Pending : Type 0
Pending = ℕ × ℕ × ℕ

abbrev within : ℕ → ℕ → ℕ → Bool
within low high byte = leb low byte && leb byte high

-- What the first byte of a character asks for.
abbrev lead : ℕ → Option Pending
lead byte =
    if leb byte 0x7f
    then some (0, 0x80, 0xbf)
    else if within 0xc2 0xdf byte
    then some (1, 0x80, 0xbf)
    else if within 0xe0 0xe0 byte
    then some (2, 0xa0, 0xbf)
    else if within 0xed 0xed byte
    then some (2, 0x80, 0x9f)
    else if within 0xe1 0xef byte
    then some (2, 0x80, 0xbf)
    else if within 0xf0 0xf0 byte
    then some (3, 0x90, 0xbf)
    else if within 0xf1 0xf3 byte
    then some (3, 0x80, 0xbf)
    else if within 0xf4 0xf4 byte
    then some (3, 0x80, 0x8f)
    else none

unfoldable pub utf8_from : Pending → List ℕ → Bool
utf8_from (zero, low, high) [] = true
utf8_from (suc left, low, high) [] = false
utf8_from (zero, low, high) (byte ∷ bytes) = elim (lead byte) [
  | none ↦ false
  | some pending ↦ utf8_from pending bytes
]
utf8_from (suc left, low, high) (byte ∷ bytes) =
    let rest = utf8_from (left, 0x80, 0xbf) bytes in within low high byte && rest

unfoldable pub is_utf8 : List ℕ → Bool
is_utf8 = utf8_from (0, 0x80, 0xbf)

-- String::from_utf8(bytes).ok()
unfoldable pub from_utf8 : List ℕ → Option Text
from_utf8 bytes = if is_utf8 bytes then some bytes else none
