-- ===== src/S3Api/Encoding.antt =====
-- internal/s3api/sigv4.go: the encoding of paths and queries of a canonical request.
pub mod RoundTrip
pub mod Order
mod Tests
use tg_files.Common.{
  ℕ, ◌+◌, ◌-◌, ◌*◌, ◌/◌, ◌%◌, ◌<◌, Text, codes, Bool, true, false, not, ◌&&◌, ◌||◌, List, [], ◌∷◌,
  ◌++◌, Option, none, some, ◌≡◌, refl, arith, ◌==◌, leb, ltb, if◌then◌else◌, ap, All, Bool-cases,
  inl, inr, ◌∙◌, text_eq, text_lt, map,
}
use tg_files.Golang.Strings.{cut}
use tg_files.Golang.Splitting.{split, join}
use tg_files.Metadata.Statements.{order_by}

-- the bytes that sigV4Encode leaves alone
unfoldable pub is_unreserved : ℕ → Bool
is_unreserved c =
    (leb b'A' c && leb c b'Z')
    || (leb b'a' c && leb c b'z')
    || (leb b'0' c && leb c b'9')
    || c == b'-'
    || c == b'_'
    || c == b'.'
    || c == b'~'

-- a digit of %02X
unfoldable pub upper_hex_digit : ℕ → ℕ
upper_hex_digit n = if ltb n 10 then b'0' + n else b'A' + n - 10

unfoldable pub encode_byte : ℕ → Bool → Text
unfolding is_unreserved upper_hex_digit
encode_byte c encode_slash =
    if is_unreserved c
    then c ∷ []
    else if c == b'/' && not encode_slash
    then c ∷ []
    else b'%' ∷ upper_hex_digit (c / 16) ∷ upper_hex_digit (c % 16) ∷ []

-- sigV4Encode
unfoldable pub sig_v4_encode : Text → Bool → Text
unfolding encode_byte
sig_v4_encode [] encode_slash = []
sig_v4_encode (c ∷ s) encode_slash = encode_byte c encode_slash ++ sig_v4_encode s encode_slash

-- fromHex
unfoldable pub from_hex : ℕ → Option ℕ
from_hex b =
    if leb b'0' b && leb b b'9'
    then some (b - b'0')
    else if leb b'a' b && leb b b'f'
    then some (b - b'a' + 10)
    else if leb b'A' b && leb b b'F'
    then some (b - b'A' + 10)
    else none

-- hi<<4 | lo of a percent sign and two digits
unfoldable pub hex_pair : ℕ → ℕ → ℕ → Option ℕ
unfolding from_hex
hex_pair c d e =
    if c == b'%'
    then elim (from_hex d) [
      | none ↦ none
      | some hi ↦ elim (from_hex e) [ none ↦ none | some lo ↦ some (hi * 16 + lo) ]
    ]
    else none

-- The loop of canonicalQueryComponent.
unfoldable pub percent_decode : Text → Text
unfolding hex_pair
percent_decode [] = []
percent_decode (c ∷ []) = c ∷ []
percent_decode (c ∷ d ∷ []) = c ∷ d ∷ []
percent_decode (c ∷ d ∷ e ∷ s) = elim (hex_pair c d e) [
  | some n ↦ n ∷ percent_decode s
  | none ↦ c ∷ percent_decode (d ∷ e ∷ s)
]

-- canonicalQueryComponent
unfoldable pub canonical_query_component : Text → Text
unfolding percent_decode sig_v4_encode
canonical_query_component raw = sig_v4_encode (percent_decode raw) true

-- The order of sort.Slice on the pairs.
unfoldable pub pair_before : Text × Text → Text × Text → Bool
unfolding text_eq text_lt
pair_before (k, v) (k', v') = if text_eq k k' then text_lt v v' else text_lt k k'

-- A token of the query as a pair, unless it is the signature that is to be left out.
unfoldable pub query_pair : Bool → Text → Option (Text × Text)
unfolding cut canonical_query_component text_eq
query_pair exclude_signature token =
    let parts : Text × Text = elim (cut token b'=') [ none ↦ (token, []) | some p ↦ p ] in
    if exclude_signature && text_eq (canonical_query_component parts.0) (codes "X-Amz-Signature")
    then none
    else some (canonical_query_component parts.0, canonical_query_component parts.1)

abbrev pub append_pair : Option (Text × Text) → List (Text × Text) → List (Text × Text)
append_pair none pairs = pairs
append_pair (some pair) pairs = pair ∷ pairs

-- The loop over the tokens.
unfoldable pub query_pairs : Bool → List Text → List (Text × Text)
unfolding query_pair
query_pairs exclude_signature [] = []
query_pairs exclude_signature (token ∷ tokens) =
    append_pair (query_pair exclude_signature token) (query_pairs exclude_signature tokens)

abbrev pub encoded_pair : Text × Text → Text
encoded_pair (k, v) = k ++ b'=' ∷ v

-- The pairs in their order, joined.
unfoldable pub query_of_tokens : Bool → List Text → Text
unfolding query_pairs order_by pair_before join
query_of_tokens exclude_signature tokens =
    join (map encoded_pair (order_by pair_before (query_pairs exclude_signature tokens)))
      (codes "&")

-- canonicalQueryString
unfoldable pub canonical_query_string : Text → Bool → Text
unfolding query_of_tokens split
canonical_query_string [] exclude_signature = []
canonical_query_string (c ∷ raw_query) exclude_signature =
    query_of_tokens exclude_signature (split (c ∷ raw_query) b'&')

unfoldable pub encode_segments : List Text → List Text
unfolding sig_v4_encode
encode_segments [] = []
encode_segments (segment ∷ segments) = sig_v4_encode segment false ∷ encode_segments segments

abbrev rooted : Text → Text
rooted [] = codes "/"
rooted (c ∷ s) = if c == b'/' then c ∷ s else b'/' ∷ c ∷ s

-- canonicalURI, of u.EscapedPath()
unfoldable pub canonical_uri : Text → Text
unfolding encode_segments split join
canonical_uri [] = codes "/"
canonical_uri (c ∷ path) = rooted (join (encode_segments (split (c ∷ path) b'/')) (codes "/"))
