-- ===== src/Base64/Decoding.antt =====
-- What the decoder accepts and what it answers.
use kotlogram.Base.{
  ℕ, zero, suc, ◌+◌, ◌*◌, ◌/◌, ◌%◌, ◌≤◌, ◌≡◌, ◌⊎◌, inl, inr, refl, subst, Bool, true, List, [], ◌∷◌,
  ◌++◌, length, All, All-append, length-append, arith, ◌==◌, Bool-cases,
}
use kotlogram.Error.{ok, Result-cases}
use kotlogram.Base64.{
  IsByte, is_ascii_whitespace, strip, Group, decode_char, decode_chars, produced, decode_chunk,
  decode_chunks, decode_bytes, decode_base64,
}

-- White space between two parts of a text does not change what it decodes to.
pub strip-append : (a b : List ℕ) → strip (a ++ b) ≡ strip a ++ strip b
unfolding strip
strip-append [] b = refl
strip-append (c ∷ a) b = ground (arith, strip-append a b)

pub strip-blank : (w : List ℕ) → All (λ c. is_ascii_whitespace c ≡ true) w → strip w ≡ []
unfolding strip
strip-blank [] h = refl
strip-blank (c ∷ w) h = ground (arith, strip-blank w h.1)

-- Before character `position`, a group is padded only if it is the last, and after two letters.
abbrev Fits : Bool → ℕ → Group → Type 0
Fits last position g = (g.padding ≡ 0) ⊎ ((last ≡ true) × (g.padding + 2 ≤ position))

decode_char-Fits :
    (last : Bool) (position : ℕ) (g g' : Group) (c : ℕ)
    → decode_char last position g c ≡ ok g'
    → Fits last position g
    → Fits last (position + 1) g'
unfolding decode_char
decode_char-Fits last position g g' c h f = ground arith

decode_chars-Fits :
    (last : Bool) (position : ℕ) (g g' : Group) (chunk : List ℕ)
    → decode_chars last position g chunk ≡ ok g'
    → Fits last position g
    → Fits last (position + length chunk) g'
unfolding decode_chars
decode_chars-Fits last position g g' [] h f = ground arith
decode_chars-Fits last position g g' (c ∷ chunk) h f =
    elim (Result-cases (decode_char last position g c)) [
      | inl (m, e) ↦
          let done = decode_char-Fits last position g m c e f in
          let rest =
            decode_chars-Fits last (position + 1) m g' chunk (rw (e, decode_chars) at h) done in
          ground (arith, rest)
      | inr (x, e) ↦ cc (rw (e, decode_chars) at h)
    ]

produced-IsByte : (g : Group) → All IsByte (produced g)
unfolding produced
produced-IsByte g = ground arith

length-produced : (g : Group) → g.padding ≤ 2 → length (produced g) + g.padding ≡ 3
unfolding produced
length-produced g h = ground arith

-- What is known of the bytes of `k` groups of which the last may be padded.
pub record Yields (k : ℕ) (bytes : List ℕ) : Type 0 where
  pub all_bytes : All IsByte bytes
  pub at_most : length bytes ≤ 3 * k
  pub at_least : 3 * k ≤ length bytes + 2

abbrev empty_group : Group
empty_group = record { value = 0; padding = 0 }

decode_chunk_lem :
    (groups index : ℕ) (a b c d : ℕ) (bytes : List ℕ)
    → decode_chunk groups index (a ∷ b ∷ c ∷ d ∷ []) ≡ ok bytes
    → (g : Group) × (bytes ≡ produced g)
      × ((g.padding ≡ 0) ⊎ ((index + 1 ≡ groups) × (g.padding ≤ 2)))
unfolding decode_chunk
decode_chunk_lem groups index a b c d bytes h =
    let last = index + 1 == groups in
    let chunk : List ℕ = a ∷ b ∷ c ∷ d ∷ [] in
    elim (Result-cases (decode_chars last 0 empty_group chunk)) [
      | inl (g, e) ↦
          let fits = decode_chars-Fits last 0 empty_group g chunk e (inl refl) in
          (g, ground arith, ground (arith, fits))
      | inr (x, e) ↦ cc (rw e at h)
    ]

Yields-more :
    (k : ℕ) (g : Group) (others : List ℕ)
    → (g.padding ≡ 0) ⊎ ((k ≡ 0) × (g.padding ≤ 2))
    → Yields k others
    → Yields (suc k) (produced g ++ others)
Yields-more k g others f y = record {
  all_bytes = All-append IsByte (produced g) others (produced-IsByte g) y.all_bytes;
  at_most = ground (arith, length-append (produced g) others, length-produced g);
  at_least = ground (arith, length-append (produced g) others, length-produced g);
}

decode_chunks_lem :
    (groups index k : ℕ) (text bytes : List ℕ)
    → length text ≡ 4 * k
    → index + k ≡ groups
    → decode_chunks groups index text ≡ ok bytes
    → Yields k bytes
unfolding decode_chunks
decode_chunks_lem groups index k [] bytes n e h =
    subst (Yields k) none_left
      (record { all_bytes = tt; at_most = omega arith; at_least = omega arith })
  where
    none_left : [] ≡ bytes
    none_left = cc
decode_chunks_lem groups index k (a ∷ []) bytes n e h = absurd (omega arith)
decode_chunks_lem groups index k (a ∷ b ∷ []) bytes n e h = absurd (omega arith)
decode_chunks_lem groups index k (a ∷ b ∷ c ∷ []) bytes n e h = absurd (omega arith)
decode_chunks_lem groups index zero (a ∷ b ∷ c ∷ d ∷ rest) bytes n e h = absurd (omega arith)
decode_chunks_lem groups index (suc k) (a ∷ b ∷ c ∷ d ∷ rest) bytes n e h =
    elim (Result-cases (decode_chunk groups index (a ∷ b ∷ c ∷ d ∷ []))) [
      | inl (first, p) ↦ elim (Result-cases (decode_chunks groups (index + 1) rest)) [
        | inl (others, q) ↦
            let (g, made, fits) = decode_chunk_lem groups index a b c d first p in
            let y =
              decode_chunks_lem groups (index + 1) k rest others (omega arith) (omega arith) q in
            let whole : produced g ++ others ≡ bytes = ground arith in
            subst (Yields (suc k)) whole (Yields-more k g others (ground arith) y)
        | inr (x, q) ↦ cc (rw (p, q) at h)
      ]
      | inr (x, p) ↦ cc (rw p at h)
    ]

-- What the decoder accepts has, without its white space, whole groups of four characters, and it
-- answers bytes: three for each group, less at most two that the last group's padding cuts off.
pub decode_base64-Yields :
    (text bytes : List ℕ)
    → decode_base64 text ≡ ok bytes
    → (length (strip text) % 4 ≡ 0) × Yields (length (strip text) / 4) bytes
unfolding decode_base64 decode_bytes
decode_base64-Yields text bytes h = elim (Bool-cases (length (strip text) % 4 == 0)) [
  | inl whole ↦
      let even : length (strip text) % 4 ≡ 0 = ground arith in
      (
        even,
        decode_chunks_lem (length (strip text) / 4) 0 (length (strip text) / 4) (strip text) bytes
            (omega arith) (omega arith) (rw whole at h),
      )
  | inr odd ↦ cc (rw odd at h)
]
