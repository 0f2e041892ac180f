-- ===== src/S3Api/Encoding/RoundTrip.antt =====
-- What sigV4Encode writes, and that it is read back.
use tg_files.Common.{
  ℕ, ◌/◌, ◌%◌, ◌<◌, Text, true, false, [], ◌∷◌, ◌++◌, some, ◌≡◌, refl, arith, ◌==◌, ap, All,
  Bool-cases, inl, inr, ◌∙◌,
}
use tg_files.S3Api.Encoding.{
  is_unreserved, upper_hex_digit, encode_byte, sig_v4_encode, from_hex, hex_pair, percent_decode,
  canonical_query_component,
}

from_hex-upper_hex_digit : (n : ℕ) → n < 16 → from_hex (upper_hex_digit n) ≡ some n
unfolding from_hex upper_hex_digit
from_hex-upper_hex_digit n h = ground arith

hex_pair-digits :
    (c : ℕ) → c < 256 → hex_pair b'%' (upper_hex_digit (c / 16)) (upper_hex_digit (c % 16)) ≡ some c
unfolding hex_pair
hex_pair-digits c h =
    rw
      (
        from_hex-upper_hex_digit (c / 16) (omega arith),
        from_hex-upper_hex_digit (c % 16) (omega arith),
      )
      (ap some (omega arith))

percent_decode_plain :
    (c : ℕ) (s : Text) → (c == b'%') ≡ false → percent_decode (c ∷ s) ≡ c ∷ percent_decode s
unfolding percent_decode hex_pair
percent_decode_plain c [] h = refl
percent_decode_plain c (d ∷ []) h = refl
percent_decode_plain c (d ∷ e ∷ s) h = ground arith

encode_byte_plain : (c : ℕ) → is_unreserved c ≡ true → encode_byte c true ≡ c ∷ []
unfolding encode_byte
encode_byte_plain c h = ground arith

encode_byte_escaped :
    (c : ℕ)
    → is_unreserved c ≡ false
    → encode_byte c true ≡ b'%' ∷ upper_hex_digit (c / 16) ∷ upper_hex_digit (c % 16) ∷ []
unfolding encode_byte
encode_byte_escaped c h = ground arith

percent_decode_escaped :
    (c : ℕ) (s : Text)
    → c < 256
    → percent_decode (b'%' ∷ upper_hex_digit (c / 16) ∷ upper_hex_digit (c % 16) ∷ s)
      ≡ c ∷ percent_decode s
unfolding percent_decode
percent_decode_escaped c s h = rw (hex_pair-digits c h, percent_decode)

percent_decode-encode_byte :
    (c : ℕ) (s : Text) → c < 256 → percent_decode (encode_byte c true ++ s) ≡ c ∷ percent_decode s
percent_decode-encode_byte c s h = elim (Bool-cases (is_unreserved c)) [
  | inl plain ↦
      ap (λ l. percent_decode (l ++ s)) (encode_byte_plain c plain)
      ∙ percent_decode_plain c s (unfold is_unreserved in ground arith)
  | inr escaped ↦
      ap (λ l. percent_decode (l ++ s)) (encode_byte_escaped c escaped)
      ∙ percent_decode_escaped c s h
]

-- The bytes of a Go string.
abbrev pub AreBytes : Text → Type 0
AreBytes = All (λ c. c < 256)

-- What sigV4Encode writes of any bytes, slashes included, is decoded to these bytes.
pub percent_decode-sig_v4_encode :
    (s : Text) → AreBytes s → percent_decode (sig_v4_encode s true) ≡ s
unfolding sig_v4_encode
percent_decode-sig_v4_encode [] h = unfold percent_decode in refl
percent_decode-sig_v4_encode (c ∷ s) (hc, hs) =
    percent_decode-encode_byte c (sig_v4_encode s true) hc
    ∙ ap (λ l. c ∷ l) (percent_decode-sig_v4_encode s hs)

-- The canonical form of a query component that sigV4Encode wrote is what it wrote.
pub canonical_query_component-sig_v4_encode :
    (s : Text)
    → AreBytes s
    → canonical_query_component (sig_v4_encode s true) ≡ sig_v4_encode s true
unfolding canonical_query_component
canonical_query_component-sig_v4_encode s h =
    ap (λ l. sig_v4_encode l true) (percent_decode-sig_v4_encode s h)
