-- ===== src/Base64/RoundTrip.antt =====
-- Decoding an encoding gives the bytes back.
use kotlogram.Base.{
  ℕ, suc, ◌+◌, ◌*◌, ◌/◌, ◌%◌, ◌^◌, ◌≡◌, refl, false, List, [], ◌∷◌, length, All, arith,
}
use kotlogram.Error.{ok}
use kotlogram.Base64.{
  IsByte, base64, is_ascii_whitespace, strip, decode_chunks, decode_bytes, decode_base64,
}
use kotlogram.Base64.Sextet.{symbol-IsVisible}
use kotlogram.Base64.Groups.{
  at, encode_three, encode_two, encode_one, decode_three, decode_pair, decode_single,
}

-- How many groups of four characters the encoding of a byte string has.
pub groups_of : List ℕ → ℕ
groups_of [] = 0
groups_of (a ∷ b ∷ c ∷ rest) = suc (groups_of rest)
groups_of short = 1

pub length-base64 :
    (bytes : List ℕ) → All IsByte bytes → length (base64 bytes) ≡ 4 * groups_of bytes
unfolding base64 groups_of
length-base64 [] h = refl
length-base64 (a ∷ []) h = rw (encode_one a h.0)
length-base64 (a ∷ b ∷ []) h = rw (encode_two a b h.0 h.1.0)
length-base64 (a ∷ b ∷ c ∷ rest) h =
    rw (encode_three a b c h.0 h.1.0 h.1.1.0) (omega (arith, length-base64 rest h.1.1.1))

abbrev IsVisible : ℕ → Type 0
IsVisible c = is_ascii_whitespace c ≡ false

at-IsVisible : (g k : ℕ) → IsVisible (at g k)
at-IsVisible g k = symbol-IsVisible (g / 2 ^ k % 64) (omega arith)

padding-IsVisible : IsVisible b'='
unfolding is_ascii_whitespace
padding-IsVisible = refl

base64-IsVisible : (bytes : List ℕ) → All IsByte bytes → All IsVisible (base64 bytes)
unfolding base64
base64-IsVisible [] h = tt
base64-IsVisible (a ∷ []) h = rw (encode_one a h.0) (
  at-IsVisible (a * 65536) 18,
  (at-IsVisible (a * 65536) 12, (padding-IsVisible, (padding-IsVisible, tt))),
)
base64-IsVisible (a ∷ b ∷ []) h =
    let g = a * 65536 + b * 256 in
    rw (encode_two a b h.0 h.1.0)
      (at-IsVisible g 18, (at-IsVisible g 12, (at-IsVisible g 6, (padding-IsVisible, tt))))
base64-IsVisible (a ∷ b ∷ c ∷ rest) h =
    let g = a * 65536 + b * 256 + c in
    rw (encode_three a b c h.0 h.1.0 h.1.1.0) (
      at-IsVisible g 18,
      (at-IsVisible g 12, (at-IsVisible g 6, (at-IsVisible g 0, base64-IsVisible rest h.1.1.1))),
    )

strip_visible : (text : List ℕ) → All IsVisible text → strip text ≡ text
unfolding strip
strip_visible [] h = refl
strip_visible (c ∷ text) h = ground (arith, strip_visible text h.1)

decode_groups :
    (index groups : ℕ) (bytes : List ℕ)
    → All IsByte bytes
    → groups ≡ index + groups_of bytes
    → decode_chunks groups index (base64 bytes) ≡ ok bytes
unfolding base64 groups_of decode_chunks
decode_groups index groups [] h e = refl
decode_groups index groups (a ∷ []) h e = rw (e, encode_one a h.0, decode_single index a h.0)
decode_groups index groups (a ∷ b ∷ []) h e =
    rw (e, encode_two a b h.0 h.1.0, decode_pair index a b h.0 h.1.0)
decode_groups index groups (a ∷ b ∷ c ∷ rest) h e =
    rw (encode_three a b c h.0 h.1.0 h.1.1.0, decode_three groups index a b c h.0 h.1.0 h.1.1.0)
      (rw (decode_groups (index + 1) groups rest h.1.1.1 (omega arith)))

-- Decoding the base64 text of a string of bytes, numbers below 256, gives that string back.
pub decode-encode : (bytes : List ℕ) → All IsByte bytes → decode_base64 (base64 bytes) ≡ ok bytes
unfolding decode_base64 decode_bytes
decode-encode bytes h =
    let whole : length (base64 bytes) % 4 ≡ 0 = omega (arith, length-base64 bytes h) in
    let groups : length (base64 bytes) / 4 ≡ groups_of bytes =
      omega (arith, length-base64 bytes h) in
    rw (strip_visible (base64 bytes) (base64-IsVisible bytes h), whole, groups)
      (decode_groups 0 (groups_of bytes) bytes h (omega arith))
