-- ===== src/S3Api/SigV4.antt =====
-- internal/s3api/sigv4.go: the authorization of a request, and its canonical form.
-- Of net/http and net/url a request shows what the code asks for: headers by their canonical key, the
-- escaped path, the raw query and the parameters that it parses to.
pub mod Canonical
pub mod Verify
pub mod Parsing
pub mod Header
pub mod Accepting
pub mod Bounds
pub mod Signing
mod Tests
use tg_files.Common.{
  ℕ, Text, codes, Bool, true, false, not, ◌&&◌, ◌||◌, List, [], ◌∷◌, ◌++◌, Option, none, some,
  if◌then◌else◌, text_eq, text_lt, Result, ok, err, length, ◌==◌, ◌>>=◌, ◌*◌,
}
use tg_files.Golang.Int64.{ℤ, pos, pos_part, neg_part, sub_ℕ, ltb_ℤ, leb_ℤ}
use tg_files.Golang.Strings.{cut, has_prefix, trim_prefix, trim, is_space}
use tg_files.Golang.Strconv.{itoa}
use tg_files.Golang.Splitting.{split, join, fields}
use tg_files.Metadata.Statements.{order_by}
use tg_files.Store.UploadStrategy.{to_lower, one_of}
use tg_files.S3Api.Encoding.{canonical_uri, canonical_query_string}

-- The body of a request: none, bytes, or one whose reading fails.
pub data Body : Type 0 where
  no_body : Body
  bytes : Text → Body
  unreadable : Body

pub record Request : Type 0 where
  pub method : Text
  pub host : Text
  pub url_host : Text
  pub escaped_path : Text
  pub raw_query : Text
  -- r.URL.Query().Get
  pub query : Text → Text
  -- r.Header.Values
  pub header : Text → List Text
  pub content_length : ℤ
  pub body : Body

-- r.Header.Get
unfoldable pub header_get : Request → Text → Text
header_get r name = elim (r.header name) [ [] ↦ [] | value ∷ values ↦ value ]

pub record SigV4Authorization : Type 0 where
  pub access_key : Text
  pub date : Text
  pub region : Text
  pub service : Text
  pub signed_headers : List Text
  pub signature : Text
  pub x_amz_date : Text
  pub expires : ℤ
  pub presigned : Bool

pub record Identity : Type 0 where
  pub access_key : Text
  pub presigned : Bool

abbrev pub algorithm : Text
algorithm = codes "AWS4-HMAC-SHA256"

-- The map of the fields of the Authorization header: the newest entry of a key comes first.
unfoldable pub field_value : Text → List (Text × Text) → Text
unfolding text_eq
field_value key [] = []
field_value key ((k, v) ∷ values) = if text_eq k key then v else field_value key values

unfoldable pub authorization_fields : List (Text × Text) → List Text → Option (List (Text × Text))
unfolding trim is_space cut
authorization_fields values [] = some values
authorization_fields values (part ∷ parts) = elim (cut (trim is_space part) b'=') [
  | none ↦ none
  | some (key, value) ↦ elim value [
    | [] ↦ none
    | c ∷ rest ↦ authorization_fields ((key, c ∷ rest) ∷ values) parts
  ]
]

-- The five parts of a credential, if there are five and the last is "aws4_request".
unfoldable pub credential_scope : List Text → Option (Text × Text × Text × Text)
unfolding text_eq
credential_scope (access_key ∷ date ∷ region ∷ service ∷ request ∷ []) =
    if text_eq request (codes "aws4_request")
    then some (access_key, date, region, service)
    else none
credential_scope other = none

-- An empty first header is refused.
unfoldable pub authorization_with :
    Option (Text × Text × Text × Text)
    → List Text
    → Text
    → Text
    → ℤ
    → Bool
    → Option SigV4Authorization
unfolding to_lower
authorization_with none headers signature x_amz_date expires presigned = none
authorization_with (some scope) [] signature x_amz_date expires presigned = none
authorization_with (some scope) ([] ∷ headers) signature x_amz_date expires presigned = none
authorization_with (some (access_key, date, region, service)) ((c ∷ header) ∷ headers) signature
      x_amz_date expires presigned =
    some (record {
      access_key = access_key;
      date = date;
      region = region;
      service = service;
      signed_headers = (c ∷ header) ∷ headers;
      signature = to_lower signature;
      x_amz_date = x_amz_date;
      expires = expires;
      presigned = presigned;
    })

-- The end of both parsers. (An empty credential or an empty list of headers is refused here too.)
unfoldable pub authorization_of : Text → Text → Text → Text → ℤ → Bool → Option SigV4Authorization
unfolding authorization_with credential_scope split
authorization_of credential signed_headers signature x_amz_date expires presigned =
    authorization_with (credential_scope (split credential b'/')) (split signed_headers b';')
      signature x_amz_date expires presigned

unfoldable pub authorization_of_fields : Option (List (Text × Text)) → Option SigV4Authorization
unfolding text_eq field_value authorization_of
authorization_of_fields none = none
authorization_of_fields (some values) =
    if text_eq (field_value (codes "Signature") values) []
    then none
    else authorization_of (field_value (codes "Credential") values)
        (field_value (codes "SignedHeaders") values) (field_value (codes "Signature") values) []
        (pos 0) false

-- parseSigV4Authorization
unfoldable pub parse_sig_v4_authorization : Text → Option SigV4Authorization
unfolding has_prefix trim_prefix split authorization_fields authorization_of_fields
parse_sig_v4_authorization header =
    if has_prefix header (algorithm ++ codes " ")
    then authorization_of_fields
        (authorization_fields [] (split (trim_prefix header (algorithm ++ codes " ")) b','))
    else none

-- The time of a request that has an Authorization header.
unfoldable pub dated : Text → Option SigV4Authorization → Option SigV4Authorization
dated x_amz_date none = none
dated x_amz_date (some auth) = some (record auth { x_amz_date = x_amz_date })

abbrev pub week : ℤ
week = pos (7 * 24 * 3600 * 1_000_000_000)

-- `parse_duration` is time.ParseDuration, in nanoseconds.
module _ (parse_duration : Text → Option ℤ) where
  -- parseSigV4QueryAuthorization
  unfoldable pub parse_sig_v4_query_authorization : (Text → Text) → Option SigV4Authorization
  unfolding text_eq authorization_of
  parse_sig_v4_query_authorization query =
      let signature = query (codes "X-Amz-Signature") in
      let expires_value = query (codes "X-Amz-Expires") in
      if not (text_eq (query (codes "X-Amz-Algorithm")) algorithm)
        || text_eq (query (codes "X-Amz-Date")) []
        || text_eq expires_value []
        || text_eq signature []
      then none
      else elim (parse_duration (expires_value ++ codes "s")) [
        | none ↦ none
        | some expires ↦
            if leb_ℤ expires (pos 0) || ltb_ℤ week expires
            then none
            else authorization_of (query (codes "X-Amz-Credential"))
                (query (codes "X-Amz-SignedHeaders")) signature (query (codes "X-Amz-Date")) expires
                true
      ]

  -- parseSigV4RequestAuth
  unfoldable pub parse_sig_v4_request_auth : Request → Option SigV4Authorization
  unfolding header_get parse_sig_v4_authorization parse_sig_v4_query_authorization dated
  parse_sig_v4_request_auth r = elim (header_get r (codes "Authorization")) [
    | [] ↦ parse_sig_v4_query_authorization r.query
    | c ∷ header ↦
        dated (header_get r (codes "X-Amz-Date")) (parse_sig_v4_authorization (c ∷ header))
  ]
