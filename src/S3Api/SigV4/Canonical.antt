-- ===== src/S3Api/SigV4/Canonical.antt =====
-- internal/s3api/sigv4.go: the canonical request, and the hash of the payload.
use tg_files.Common.{
  Text, codes, Bool, not, List, [], ◌∷◌, ◌++◌, Option, none, some, if◌then◌else◌, text_eq, text_lt,
}
use tg_files.Golang.Int64.{pos, pos_part, leb_ℤ}
use tg_files.Golang.Strings.{trim, is_space}
use tg_files.Golang.Strconv.{itoa}
use tg_files.Golang.Splitting.{join, fields}
use tg_files.Metadata.Statements.{order_by}
use tg_files.Store.UploadStrategy.{to_lower, one_of}
use tg_files.Store.Multipart.Handlers.{hex_encode}
use tg_files.S3Api.Encoding.{canonical_uri, canonical_query_string}
use tg_files.S3Api.SigV4.{Request, Body, no_body, bytes, unreadable, header_get}

-- The names of canonicalHeaders: none of them is empty or stands twice.
unfoldable pub normalized_headers : List Text → List Text → Option (List Text)
unfolding to_lower trim is_space text_eq one_of
normalized_headers seen [] = some []
normalized_headers seen (header ∷ headers) =
    let name = to_lower (trim is_space header) in
    let rest : Option (List Text) = elim (normalized_headers (name ∷ seen) headers) [
      | none ↦ none
      | some names ↦ some (name ∷ names)
    ] in
    if text_eq name [] then none else if one_of name seen then none else rest

-- normalizeHeaderValue
unfoldable pub normalize_header_value : Text → Text
unfolding fields trim is_space join
normalize_header_value value = join (fields (trim is_space value)) (codes " ")

-- `canonical_header_key` is http.CanonicalHeaderKey.
module _ (canonical_header_key : Text → Text) where
  unfoldable pub header_field : Request → Text → Option Text
  unfolding join
  header_field r name = elim (r.header (canonical_header_key name)) [
    | [] ↦ none
    | value ∷ values ↦ some (join (value ∷ values) (codes ","))
  ]

  -- headerValue
  unfoldable pub header_value : Request → Text → Option Text
  unfolding text_eq header_field itoa
  header_value r name =
      if text_eq name (codes "host")
      then if not (text_eq r.host [])
        then some r.host
        else if not (text_eq r.url_host [])
        then some r.url_host
        else none
      else if text_eq name (codes "content-length")
      then elim (r.header (codes "Content-Length")) [
        | [] ↦
            if leb_ℤ (pos 0) r.content_length
            then some (itoa (pos_part r.content_length))
            else header_field r name
        | value ∷ values ↦ header_field r name
      ]
      else header_field r name

  unfoldable pub canonical_lines : Request → List Text → Option (List Text)
  unfolding header_value normalize_header_value
  canonical_lines r [] = some []
  canonical_lines r (name ∷ names) = elim (header_value r name) [
    | none ↦ none
    | some value ↦ elim (canonical_lines r names) [
      | none ↦ none
      | some lines ↦ some ((name ++ b':' ∷ normalize_header_value value) ∷ lines)
    ]
  ]

  -- canonicalHeaders
  unfoldable pub canonical_headers : Request → List Text → Option (Text × Text)
  unfolding normalized_headers order_by text_lt canonical_lines join
  canonical_headers r signed_headers = elim (normalized_headers [] signed_headers) [
    | none ↦ none
    | some names ↦
        let sorted = order_by text_lt names in
        let result : Option (Text × Text) = elim (canonical_lines r sorted) [
          | none ↦ none
          | some lines ↦ some (join lines (codes "\n") ++ codes "\n", join sorted (codes ";"))
        ] in
        result
  ]

  -- buildCanonicalRequest
  unfoldable pub build_canonical_request : Request → List Text → Text → Bool → Option Text
  unfolding canonical_headers canonical_uri canonical_query_string join
  build_canonical_request r signed_headers payload_hash exclude_signature =
      elim (canonical_headers r signed_headers) [
        | none ↦ none
        | some (headers, names) ↦ some (
            join
              (r.method
                ∷ canonical_uri r.escaped_path
                ∷ canonical_query_string r.raw_query exclude_signature
                ∷ headers
                ∷ names
                ∷ payload_hash
                ∷ [])
              (codes "\n"))
      ]

abbrev pub empty_payload_sha256 : Text
empty_payload_sha256 = codes "e3b0c44298fc1c149afbf4c8996fb92427ae41e4649b934ca495991b7852b855"

abbrev pub unsigned_payload : Text
unsigned_payload = codes "UNSIGNED-PAYLOAD"

-- payloadHash, where the header has no hash, "UNSIGNED-PAYLOAD", or another one.
module _ (sha256 : Text → Text) where
  abbrev pub checked_hash : Text → Body → Option Text
  unfolding text_eq hex_encode to_lower
  checked_hash hash no_body = if text_eq hash empty_payload_sha256 then some hash else none
  checked_hash hash (bytes body) =
      if text_eq (hex_encode (sha256 body)) (to_lower hash) then some (to_lower hash) else none
  checked_hash hash unreadable = none

  abbrev pub missing_hash : Body → Option Text
  missing_hash no_body = some empty_payload_sha256
  missing_hash (bytes body) = none
  missing_hash unreadable = none

  unfoldable pub payload_hash : Request → Option Text
  unfolding header_get text_eq hex_encode to_lower
  payload_hash r =
      let hash = header_get r (codes "X-Amz-Content-Sha256") in
      if text_eq hash []
      then missing_hash r.body
      else if text_eq hash unsigned_payload
      then some hash
      else checked_hash hash r.body
