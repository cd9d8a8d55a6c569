-- ===== src/Base64.antt =====
-- The base64 encoder and decoder that native/src/dto/files.rs writes out (`base64`,
-- `decode_base64`, `sextet`). native/src/dto/update.rs and native/src/dto/message.rs hold two
-- further copies of `base64`, token for token the same. Bytes and the bytes of a text are numbers
-- below 256; `u32` arithmetic keeps its wrap-around.
pub mod Sextet
pub mod Groups
pub mod RoundTrip
pub mod Decoding
mod Examples
use Prim.Native.Char.{code}
use kotlogram.Base.{
  ℕ, zero, suc, ◌+◌, ◌-◌, ◌*◌, ◌/◌, ◌%◌, ◌^◌, ◌<◌, bit_and, bit_or, String, Bool, true, not, ◌&&◌,
  ◌||◌, List, [], ◌∷◌, ◌++◌, length, get_or, replicate, All, ltb, leb, ◌==◌, if◌then◌else◌,
}
use kotlogram.Error.{
  Result, ok, err, ◌>>=◌, not_whole_groups, padding_not_trailing, data_after_padding,
  invalid_character,
}

abbrev pub IsByte : ℕ → Type 0
IsByte b = b < 256

-- The bytes of an ASCII literal.
abbrev pub codes : String → List ℕ
codes String.[] = []
codes (String.◌∷◌ c s) = code c ∷ codes s

abbrev pub alphabet : List ℕ
alphabet = codes "ABCDEFGHIJKLMNOPQRSTUVWXYZabcdefghijklmnopqrstuvwxyz0123456789+/"

-- group | u32::from(byte) << (16 - 8 * index), from the first byte of a chunk on
pub group_from : ℕ → ℕ → List ℕ → ℕ
group_from index group [] = group
group_from index group (byte ∷ chunk) =
    group_from (index + 1) (bit_or group (byte * 2 ^ (16 - 8 * index) % 2 ^ 32)) chunk

-- ALPHABET[((group >> shift) & 0x3f) as usize]
pub letter : ℕ → ℕ → ℕ
letter group shift = get_or alphabet (bit_and (group / 2 ^ shift) 0x3f) 0

-- The characters at `index..=index + left`, and the padding of a short chunk after the last one.
pub letters : ℕ → ℕ → ℕ → List ℕ
unfolding letter
letters group index zero = letter group (18 - 6 * index) ∷ replicate (3 - index) b'='
letters group index (suc left) = letter group (18 - 6 * index) ∷ letters group (index + 1) left

pub encode_chunk : List ℕ → List ℕ
encode_chunk chunk = letters (group_from 0 0 chunk) 0 (length chunk)

-- for chunk in bytes.chunks(3)
pub base64 : List ℕ → List ℕ
base64 [] = []
base64 (a ∷ b ∷ c ∷ rest) = encode_chunk (a ∷ b ∷ c ∷ []) ++ base64 rest
base64 short = encode_chunk short

-- u8::is_ascii_whitespace
pub is_ascii_whitespace : ℕ → Bool
is_ascii_whitespace b = b == b' ' || b == 9 || b == 10 || b == 12 || b == 13

pub strip : List ℕ → List ℕ
unfolding is_ascii_whitespace
strip [] = []
strip (b ∷ text) = let rest = strip text in if is_ascii_whitespace b then rest else b ∷ rest

pub sextet : ℕ → Result ℕ
sextet byte =
    if leb b'A' byte && leb byte b'Z'
    then ok (byte - b'A')
    else if leb b'a' byte && leb byte b'z'
    then ok (byte - b'a' + 26)
    else if leb b'0' byte && leb byte b'9'
    then ok (byte - b'0' + 52)
    else if byte == b'+'
    then ok 62
    else if byte == b'/'
    then ok 63
    else err (invalid_character byte)

-- The variables of the loop over one group of four characters.
pub record Group : Type 0 where
  pub value : ℕ
  pub padding : ℕ

-- One turn of that loop; `last` is `index + 1 == groups`.
pub decode_char : Bool → ℕ → Group → ℕ → Result Group
unfolding sextet
decode_char last position g byte =
    if byte == b'='
    then if not last || ltb position 2
      then err padding_not_trailing
      else ok (record { value = g.value * 2 ^ 6 % 2 ^ 32; padding = g.padding + 1 })
    else if ltb 0 g.padding
    then err data_after_padding
    else do
      s ← sextet byte
      ok (record { value = bit_or (g.value * 2 ^ 6 % 2 ^ 32) s; padding = g.padding })

pub decode_chars : Bool → ℕ → Group → List ℕ → Result Group
decode_chars last position g [] = ok g
decode_chars last position g (byte ∷ chunk) = do
  g' ← decode_char last position g byte
  decode_chars last (position + 1) g' chunk

-- The bytes that a group pushes, `3 - padding` of them but always the first.
pub produced : Group → List ℕ
produced g =
    (g.value / 2 ^ 16 % 256)
    ∷ ((if leb 2 (3 - g.padding) then (g.value / 2 ^ 8 % 256) ∷ [] else [])
        ++ (if leb 3 (3 - g.padding) then (g.value % 256) ∷ [] else []))

pub decode_chunk : ℕ → ℕ → List ℕ → Result (List ℕ)
decode_chunk groups index chunk = do
  g ← decode_chars (index + 1 == groups) 0 (record { value = 0; padding = 0 }) chunk
  ok (produced g)

-- for (index, chunk) in bytes.chunks(4).enumerate()
pub decode_chunks : ℕ → ℕ → List ℕ → Result (List ℕ)
decode_chunks groups index [] = ok []
decode_chunks groups index (a ∷ b ∷ c ∷ d ∷ rest) = do
  bytes ← decode_chunk groups index (a ∷ b ∷ c ∷ d ∷ [])
  others ← decode_chunks groups (index + 1) rest
  ok (bytes ++ others)
decode_chunks groups index short = decode_chunk groups index short

pub decode_bytes : List ℕ → Result (List ℕ)
decode_bytes bytes =
    if not (length bytes % 4 == 0)
    then err (not_whole_groups (length bytes))
    else decode_chunks (length bytes / 4) 0 bytes

pub decode_base64 : List ℕ → Result (List ℕ)
decode_base64 text = decode_bytes (strip text)
