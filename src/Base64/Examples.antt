-- ===== src/Base64/Examples.antt =====
-- Runs of the codec, and its theorems at concrete inputs.
use kotlogram.Base.{ℕ, ◌≡◌, ◌%◌, ◌/◌, refl, List, [], ◌∷◌, All, arith, length}
use kotlogram.Base64.RoundTrip.{decode-encode}
use kotlogram.Base64.Decoding.{Yields, decode_base64-Yields}
use kotlogram.Error.{ok, err, padding_not_trailing}
use kotlogram.Base64.{
  codes, IsByte, base64, encode_chunk, group_from, letters, decode_base64, strip, decode_bytes,
  decode_chunks, decode_chunk, decode_chars, decode_char, produced,
}

encodes_foobar : base64 (codes "fooba") ≡ codes "Zm9vYmE="
unfolding base64 encode_chunk group_from letters
encodes_foobar = refl

decodes_foobar : decode_base64 (codes "Zm9v YmE=") ≡ ok (codes "fooba")
unfolding decode_base64 strip decode_bytes decode_chunks decode_chunk decode_chars decode_char
    produced
decodes_foobar = refl

refuses_padding : decode_base64 (codes "Zg==Zm8=") ≡ err padding_not_trailing
unfolding decode_base64 strip decode_bytes decode_chunks decode_chunk decode_chars decode_char
    produced
refuses_padding = refl

-- "hi!"
abbrev three_bytes : List ℕ
three_bytes = 104 ∷ 105 ∷ 33 ∷ []

three_bytes-IsByte : All IsByte three_bytes
three_bytes-IsByte = (omega arith, (omega arith, (omega arith, tt)))

decode-encode_example : decode_base64 (base64 three_bytes) ≡ ok three_bytes
decode-encode_example = decode-encode three_bytes three_bytes-IsByte

decode_base64-Yields_example :
    (◌≡◌ {A = ℕ} (length (strip (codes "Zm9v YmE=")) % 4) 0)
    × Yields (length (strip (codes "Zm9v YmE=")) / 4) (codes "fooba")
decode_base64-Yields_example =
    decode_base64-Yields (codes "Zm9v YmE=") (codes "fooba") decodes_foobar
