-- ===== src/Base64/Sextet.antt =====
-- The alphabet and `sextet` are inverse to one another, and one letter adds six bits to a group.
use kotlogram.Base.{
  ℕ, ◌+◌, ◌*◌, ◌/◌, ◌%◌, ◌^◌, ◌<◌, ◌≡◌, refl, Bool, true, false, not, ◌&&◌, get_or, every_below,
  every_below_sound, ◌==◌, arith,
}
use kotlogram.Base.Bits.{bit_and-sextet, bit_or-shl}
use kotlogram.Error.{Result, ok, err}
use kotlogram.Base64.{alphabet, letter, is_ascii_whitespace, sextet, decode_char}

-- ALPHABET[s]
abbrev pub symbol : ℕ → ℕ
symbol s = get_or alphabet s 0

abbrev reads_back : ℕ → Bool
reads_back s = elim (sextet (symbol s)) [
  | ok t ↦ (t == s) && not (symbol s == b'=')
  | err e ↦ false
]

reads_back_table : every_below reads_back 64 ≡ true
unfolding every_below sextet
reads_back_table = refl

cases_of_reads_back :
    (r : Result ℕ) (s c : ℕ)
    → (elim r [ ok t ↦ (t == s) && not (c == b'=') | err e ↦ false ]) ≡ true
    → (r ≡ ok s) × ((c == b'=') ≡ false)
cases_of_reads_back (ok t) s c h = ground arith
cases_of_reads_back (err e) s c h = cc

-- Each letter stands for its index, and none is the padding.
pub sextet-symbol : (s : ℕ) → s < 64 → (sextet (symbol s) ≡ ok s) × ((symbol s == b'=') ≡ false)
sextet-symbol s h =
    cases_of_reads_back (sextet (symbol s)) s (symbol s)
      (every_below_sound reads_back 64 reads_back_table s h)

pub letter-symbol : (group shift : ℕ) → letter group shift ≡ symbol (group / 2 ^ shift % 64)
unfolding letter
letter-symbol group shift = rw bit_and-sextet

-- In a group without padding a letter shifts the value by six bits and adds its own.
pub decode_char-symbol :
    (last : Bool) (position v s : ℕ)
    → s < 64
    → v < 2 ^ 26
    → decode_char last position (record { value = v; padding = 0 }) (symbol s)
      ≡ ok (record { value = v * 64 + s; padding = 0 })
unfolding decode_char
decode_char-symbol last position v s hs hv =
    let (reads, letter) = sextet-symbol s hs in
    let fits : v * 2 ^ 6 % 2 ^ 32 ≡ v * 2 ^ 6 = omega arith in
    rw (letter, reads, fits, bit_or-shl 6 v s hs)

visible_table : every_below (λ s. not (is_ascii_whitespace (symbol s))) 64 ≡ true
unfolding every_below is_ascii_whitespace
visible_table = refl

-- No letter is white space.
pub symbol-IsVisible : (s : ℕ) → s < 64 → is_ascii_whitespace (symbol s) ≡ false
symbol-IsVisible s h =
    ground
      (arith, every_below_sound (λ s. not (is_ascii_whitespace (symbol s))) 64 visible_table s h)
