-- ===== src/Base64/Groups.antt =====
-- One group of the codec: the letters of a chunk of one, two or three bytes, and what decoding
-- them gives.
use kotlogram.Base.{
  ℕ, ◌+◌, ◌*◌, ◌/◌, ◌%◌, ◌^◌, ◌<◌, ◌≡◌, ap, Bool, true, List, [], ◌∷◌, arith, ◌==◌,
}
use kotlogram.Base.Bits.{zero-bit_or, bit_or-shl}
use kotlogram.Error.{ok}
use kotlogram.Base64.{
  IsByte, group_from, letters, encode_chunk, decode_char, decode_chars, produced, decode_chunk,
}
use kotlogram.Base64.Sextet.{symbol, letter-symbol, decode_char-symbol}

group_of_three :
    (a b c : ℕ)
    → IsByte a
    → IsByte b
    → IsByte c
    → group_from 0 0 (a ∷ b ∷ c ∷ []) ≡ a * 65536 + b * 256 + c
unfolding group_from
group_of_three a b c ha hb hc =
    let first : a * 65536 % 4294967296 ≡ a * 2 ^ 16 = omega arith in
    let second : b * 256 % 4294967296 ≡ b * 256 = omega arith in
    let third : c * 1 % 4294967296 ≡ c = omega arith in
    let sum : a * 2 ^ 16 + b * 256 ≡ (a * 256 + b) * 2 ^ 8 = omega arith in
    rw (first, second, third, zero-bit_or, bit_or-shl 16 a (b * 256) (omega arith), sum)
      (rw (bit_or-shl 8 (a * 256 + b) c (omega arith)) (omega arith))

group_of_two : (a b : ℕ) → IsByte a → IsByte b → group_from 0 0 (a ∷ b ∷ []) ≡ a * 65536 + b * 256
unfolding group_from
group_of_two a b ha hb =
    let first : a * 65536 % 4294967296 ≡ a * 2 ^ 16 = omega arith in
    let second : b * 256 % 4294967296 ≡ b * 256 = omega arith in
    rw (first, second, zero-bit_or) (bit_or-shl 16 a (b * 256) (omega arith))

group_of_one : (a : ℕ) → IsByte a → group_from 0 0 (a ∷ []) ≡ a * 65536
unfolding group_from
group_of_one a ha =
    let first : a * 65536 % 4294967296 ≡ a * 65536 = omega arith in rw (first, zero-bit_or)

-- The letter that carries the six bits of a group from `2 ^ shift` on.
abbrev pub at : ℕ → ℕ → ℕ
at group shift = symbol (group / 2 ^ shift % 64)

pub encode_three :
    (a b c : ℕ)
    → IsByte a
    → IsByte b
    → IsByte c
    → let g = a * 65536 + b * 256 + c in
      encode_chunk (a ∷ b ∷ c ∷ []) ≡ at g 18 ∷ at g 12 ∷ at g 6 ∷ at g 0 ∷ []
unfolding encode_chunk letters
encode_three a b c ha hb hc = rw (group_of_three a b c ha hb hc) (simp letter-symbol)

pub encode_two :
    (a b : ℕ)
    → IsByte a
    → IsByte b
    → let g = a * 65536 + b * 256 in
      encode_chunk (a ∷ b ∷ []) ≡ at g 18 ∷ at g 12 ∷ at g 6 ∷ b'=' ∷ []
unfolding encode_chunk letters
encode_two a b ha hb = rw (group_of_two a b ha hb) (simp letter-symbol)

pub encode_one :
    (a : ℕ)
    → IsByte a
    → let g = a * 65536 in encode_chunk (a ∷ []) ≡ at g 18 ∷ at g 12 ∷ b'=' ∷ b'=' ∷ []
unfolding encode_chunk letters
encode_one a ha = rw (group_of_one a ha) (simp letter-symbol)

-- Two letters, the start of every group.
decode_two :
    (last : Bool) (p q : ℕ) (rest : List ℕ)
    → p < 64
    → q < 64
    → decode_chars last 0 (record { value = 0; padding = 0 }) (symbol p ∷ symbol q ∷ rest)
      ≡ decode_chars last 2 (record { value = p * 64 + q; padding = 0 }) rest
unfolding decode_chars
decode_two last p q rest hp hq =
    let start : 0 + p ≡ p = omega arith in
    rw (decode_char-symbol last 0 0 p hp (omega arith), start)
      (rw (decode_char-symbol last 1 p q hq (omega arith)))

-- Two more, the end of a whole group.
decode_two_more :
    (last : Bool) (v p q : ℕ)
    → v < 2 ^ 12
    → p < 64
    → q < 64
    → decode_chars last 2 (record { value = v; padding = 0 }) (symbol p ∷ symbol q ∷ [])
      ≡ ok (record { value = (v * 64 + p) * 64 + q; padding = 0 })
unfolding decode_chars
decode_two_more last v p q hv hp hq =
    rw (decode_char-symbol last 2 v p hp (omega arith))
      (rw (decode_char-symbol last 3 (v * 64 + p) q hq (omega arith)))

decode_padded_once :
    (v p : ℕ)
    → v < 2 ^ 12
    → p < 64
    → decode_chars true 2 (record { value = v; padding = 0 }) (symbol p ∷ b'=' ∷ [])
      ≡ ok (record { value = (v * 64 + p) * 64; padding = 1 })
unfolding decode_chars decode_char
decode_padded_once v p hv hp =
    let fits : (v * 64 + p) * 64 % 4294967296 ≡ (v * 64 + p) * 64 = omega arith in
    rw (fold_char v p hp hv) (rw fits)
  where
    fold_char :
        (v p : ℕ)
        → p < 64
        → v < 2 ^ 12
        → decode_char true 2 (record { value = v; padding = 0 }) (symbol p)
          ≡ ok (record { value = v * 64 + p; padding = 0 })
    fold_char v p hp hv = decode_char-symbol true 2 v p hp (omega arith)

decode_padded_twice :
    (v : ℕ)
    → v < 2 ^ 12
    → decode_chars true 2 (record { value = v; padding = 0 }) (b'=' ∷ b'=' ∷ [])
      ≡ ok (record { value = v * 64 * 64; padding = 2 })
unfolding decode_chars decode_char
decode_padded_twice v hv =
    let once : v * 64 % 4294967296 ≡ v * 64 = omega arith in
    let twice : v * 64 * 64 % 4294967296 ≡ v * 64 * 64 = omega arith in rw once (rw twice)

pub decode_three :
    (groups index a b c : ℕ)
    → IsByte a
    → IsByte b
    → IsByte c
    → let g = a * 65536 + b * 256 + c in
      decode_chunk groups index (at g 18 ∷ at g 12 ∷ at g 6 ∷ at g 0 ∷ []) ≡ ok (a ∷ b ∷ c ∷ [])
unfolding decode_chunk
decode_three groups index a b c ha hb hc =
    let g = a * 65536 + b * 256 + c in
    let p = g / 2 ^ 18 % 64 in
    let q = g / 2 ^ 12 % 64 in
    let r = g / 2 ^ 6 % 64 in
    let s = g / 2 ^ 0 % 64 in
    let last = index + 1 == groups in
    let whole : ((p * 64 + q) * 64 + r) * 64 + s ≡ g = omega arith in
    rw (decode_two last p q (symbol r ∷ symbol s ∷ []) (omega arith) (omega arith)) (
      rw (decode_two_more last (p * 64 + q) r s (omega arith) (omega arith) (omega arith))
        (rw whole (unfold produced in ap ok (three (omega arith) (omega arith) (omega arith)))))
  where
    three :
        {a b c x y z : ℕ}
        → a ≡ x
        → b ≡ y
        → c ≡ z
        → ◌≡◌ {A = List ℕ} (a ∷ b ∷ c ∷ []) (x ∷ y ∷ z ∷ [])
    three e f g = cc

pub decode_pair :
    (index a b : ℕ)
    → IsByte a
    → IsByte b
    → let g = a * 65536 + b * 256 in
      decode_chunk (index + 1) index (at g 18 ∷ at g 12 ∷ at g 6 ∷ b'=' ∷ []) ≡ ok (a ∷ b ∷ [])
unfolding decode_chunk
decode_pair index a b ha hb =
    let g = a * 65536 + b * 256 in
    let p = g / 2 ^ 18 % 64 in
    let q = g / 2 ^ 12 % 64 in
    let r = g / 2 ^ 6 % 64 in
    let last : (index + 1 == index + 1) ≡ true = ground arith in
    let whole : ((p * 64 + q) * 64 + r) * 64 ≡ g = omega arith in
    rw (last, decode_two true p q (symbol r ∷ b'=' ∷ []) (omega arith) (omega arith))
      (rw (decode_padded_once (p * 64 + q) r (omega arith) (omega arith))
        (rw whole (unfold produced in ap ok (two (omega arith) (omega arith)))))
  where
    two : {a b x y : ℕ} → a ≡ x → b ≡ y → ◌≡◌ {A = List ℕ} (a ∷ b ∷ []) (x ∷ y ∷ [])
    two e f = cc

pub decode_single :
    (index a : ℕ)
    → IsByte a
    → let g = a * 65536 in
      decode_chunk (index + 1) index (at g 18 ∷ at g 12 ∷ b'=' ∷ b'=' ∷ []) ≡ ok (a ∷ [])
unfolding decode_chunk
decode_single index a ha =
    let g = a * 65536 in
    let p = g / 2 ^ 18 % 64 in
    let q = g / 2 ^ 12 % 64 in
    let last : (index + 1 == index + 1) ≡ true = ground arith in
    let whole : (p * 64 + q) * 64 * 64 ≡ g = omega arith in
    rw (last, decode_two true p q (b'=' ∷ b'=' ∷ []) (omega arith) (omega arith))
      (rw (decode_padded_twice (p * 64 + q) (omega arith))
        (rw whole (unfold produced in ap ok (one (omega arith)))))
  where
    one : {a x : ℕ} → a ≡ x → ◌≡◌ {A = List ℕ} (a ∷ []) (x ∷ [])
    one e = cc
