-- ===== src/S3Api/SigV4/Header.antt =====
-- The Authorization header of a client, and what parseSigV4Authorization makes of it.
use tg_files.Common.{
  ℕ, Text, codes, false, List, [], ◌∷◌, ◌++◌, none, some, ◌≡◌, refl, ap, ◌∙◌, if_true, if_false,
  text_eq, All,
}
use tg_files.Golang.Int64.{pos}
use tg_files.Golang.Strings.{
  cut, has_prefix-append, trim_prefix-append, trim, is_space, contains_byte, cut-append,
}
use tg_files.Golang.Splitting.{split, join, split-join, AreWithout}
use tg_files.Store.UploadStrategy.{to_lower}
use tg_files.S3Api.SigV4.{
  SigV4Authorization, algorithm, field_value, authorization_fields, credential_scope,
  authorization_of, parse_sig_v4_authorization, authorization_with, authorization_of_fields,
}
use tg_files.S3Api.SigV4.Parsing.{
  is_plain, IsPlain, IsPlain-without, IsTight, IsPlain-IsTight, IsTight-join, All-append,
  trim_tight, trim_indented, is_tight-IsTight, is_tight, contains_byte-join,
}

-- What a client writes: the credential, the names of the signed headers, of which there is at least
-- one and the first is not empty, and the signature.
pub record Signed : Type 0 where
  pub access_key : Text
  pub date : Text
  pub region : Text
  pub service : Text
  pub first_byte : ℕ
  pub first_header : Text
  pub headers : List Text
  pub signature : Text

-- None of it has white space, a comma, a slash or a semicolon, and there is a signature.
pub record IsWritten (c : Signed) : Type 0 where
  pub access_key : IsPlain c.access_key
  pub date : IsPlain c.date
  pub region : IsPlain c.region
  pub service : IsPlain c.service
  pub first_header : IsPlain (c.first_byte ∷ c.first_header)
  pub headers : All IsPlain c.headers
  pub signature : IsPlain c.signature
  pub signed : text_eq c.signature [] ≡ false

abbrev pub credential : Signed → Text
credential c =
    join (c.access_key ∷ c.date ∷ c.region ∷ c.service ∷ codes "aws4_request" ∷ []) (codes "/")

abbrev pub header_names : Signed → Text
header_names c = join ((c.first_byte ∷ c.first_header) ∷ c.headers) (codes ";")

unfoldable pub authorization_header : Signed → Text
unfolding join
authorization_header c =
    (algorithm ++ codes " ")
    ++ join
        ((codes "Credential" ++ b'=' ∷ credential c)
          ∷ (codes " SignedHeaders" ++ b'=' ∷ header_names c)
          ∷ (codes " Signature" ++ b'=' ∷ c.signature)
          ∷ [])
        (codes ",")

-- One field more.
fields-step :
    (values : List (Text × Text)) (part key value : Text) (parts : List Text)
    → cut (trim is_space part) b'=' ≡ some (key, value)
    → text_eq value [] ≡ false
    → authorization_fields values (part ∷ parts)
      ≡ authorization_fields ((key, value) ∷ values) parts
unfolding text_eq authorization_fields
fields-step values part key [] parts e h = cc
fields-step values part key (c ∷ value) parts e h = rw (e, authorization_fields) refl

not_empty : (s : Text) (d : ℕ) (t : Text) → text_eq (s ++ d ∷ t) [] ≡ false
unfolding text_eq
not_empty [] d t = refl
not_empty (c ∷ s) d t = refl

join-not_empty :
    (c : ℕ) (w : Text) (ws : List Text) (sep : Text) → text_eq (join ((c ∷ w) ∷ ws) sep) [] ≡ false
unfolding text_eq join
join-not_empty c w [] sep = refl
join-not_empty c w (v ∷ ws) sep = refl

-- The authorization that the server reads.
abbrev pub authorization : Signed → SigV4Authorization
authorization c = record {
  access_key = c.access_key;
  date = c.date;
  region = c.region;
  service = c.service;
  signed_headers = (c.first_byte ∷ c.first_header) ∷ c.headers;
  signature = to_lower c.signature;
  x_amz_date = [];
  expires = pos 0;
  presigned = false;
}

module _ (c : Signed) (w : IsWritten c) where
  credential-IsTight : IsTight (credential c)
  unfolding is_space
  credential-IsTight =
      IsTight-join b'/' c.access_key (c.date ∷ c.region ∷ c.service ∷ codes "aws4_request" ∷ [])
        refl (IsPlain-IsTight c.access_key w.access_key)
        (
          IsPlain-IsTight c.date w.date,
          (
            IsPlain-IsTight c.region w.region,
            (
              IsPlain-IsTight c.service w.service,
              (is_tight-IsTight (codes "aws4_request") (unfold is_tight in refl), tt),
            ),
          ),
        )

  plain_words-without :
      (b : ℕ)
      → is_plain b ≡ false
      → contains_byte (codes "aws4_request") b ≡ false
      → AreWithout b (c.date ∷ c.region ∷ c.service ∷ codes "aws4_request" ∷ [])
  plain_words-without b h literal = (
    IsPlain-without b c.date h w.date,
    (
      IsPlain-without b c.region h w.region,
      (IsPlain-without b c.service h w.service, (literal, tt)),
    ),
  )

  credential-split :
      split (credential c) b'/'
      ≡ c.access_key ∷ c.date ∷ c.region ∷ c.service ∷ codes "aws4_request" ∷ []
  unfolding is_plain is_space
  credential-split =
      split-join c.access_key (c.date ∷ c.region ∷ c.service ∷ codes "aws4_request" ∷ []) b'/'
        (IsPlain-without b'/' c.access_key refl w.access_key)
        (plain_words-without b'/' refl (unfold contains_byte in refl))

  credential-no_comma : contains_byte (credential c) b',' ≡ false
  unfolding is_plain is_space
  credential-no_comma =
      contains_byte-join b',' b'/' c.access_key
        (c.date ∷ c.region ∷ c.service ∷ codes "aws4_request" ∷ []) refl
        (IsPlain-without b',' c.access_key refl w.access_key)
        (plain_words-without b',' refl (unfold contains_byte in refl))

  headers-without :
      (b : ℕ) → is_plain b ≡ false → (hs : List Text) → All IsPlain hs → AreWithout b hs
  headers-without b h [] ps = tt
  headers-without b h (t ∷ hs) (p, ps) = (IsPlain-without b t h p, headers-without b h hs ps)

  headers-IsTight : (hs : List Text) → All IsPlain hs → All IsTight hs
  headers-IsTight [] ps = tt
  headers-IsTight (t ∷ hs) (p, ps) = (IsPlain-IsTight t p, headers-IsTight hs ps)

  names-split : split (header_names c) b';' ≡ (c.first_byte ∷ c.first_header) ∷ c.headers
  unfolding is_plain is_space
  names-split =
      split-join (c.first_byte ∷ c.first_header) c.headers b';'
        (IsPlain-without b';' (c.first_byte ∷ c.first_header) refl w.first_header)
        (headers-without b';' refl c.headers w.headers)

  names-no_comma : contains_byte (header_names c) b',' ≡ false
  unfolding is_plain is_space
  names-no_comma =
      contains_byte-join b',' b';' (c.first_byte ∷ c.first_header) c.headers refl
        (IsPlain-without b',' (c.first_byte ∷ c.first_header) refl w.first_header)
        (headers-without b',' refl c.headers w.headers)

  names-IsTight : IsTight (header_names c)
  unfolding is_space
  names-IsTight =
      IsTight-join b';' (c.first_byte ∷ c.first_header) c.headers refl
        (IsPlain-IsTight (c.first_byte ∷ c.first_header) w.first_header)
        (headers-IsTight c.headers w.headers)

  cut-credential :
      cut (trim is_space (codes "Credential" ++ b'=' ∷ credential c)) b'='
      ≡ some (codes "Credential", credential c)
  unfolding is_space
  cut-credential =
      ap (λ t. cut t b'=')
        (trim_tight (codes "Credential" ++ b'=' ∷ credential c) (
          All-append _ (codes "Credential") (b'=' ∷ credential c)
            (is_tight-IsTight (codes "Credential") (unfold is_tight in refl))
            (refl, credential-IsTight)))
      ∙ cut-append (codes "Credential") (credential c) b'=' (unfold contains_byte in refl)

  cut-signed_headers :
      cut (trim is_space (codes " SignedHeaders" ++ b'=' ∷ header_names c)) b'='
      ≡ some (codes "SignedHeaders", header_names c)
  unfolding is_space
  cut-signed_headers =
      ap (λ t. cut t b'=')
        (trim_indented (codes "SignedHeaders" ++ b'=' ∷ header_names c) (
          All-append _ (codes "SignedHeaders") (b'=' ∷ header_names c)
            (is_tight-IsTight (codes "SignedHeaders") (unfold is_tight in refl))
            (refl, names-IsTight)))
      ∙ cut-append (codes "SignedHeaders") (header_names c) b'=' (unfold contains_byte in refl)

  cut-signature :
      cut (trim is_space (codes " Signature" ++ b'=' ∷ c.signature)) b'='
      ≡ some (codes "Signature", c.signature)
  unfolding is_space
  cut-signature =
      ap (λ t. cut t b'=')
        (trim_indented (codes "Signature" ++ b'=' ∷ c.signature) (
          All-append _ (codes "Signature") (b'=' ∷ c.signature)
            (is_tight-IsTight (codes "Signature") (unfold is_tight in refl))
            (refl, IsPlain-IsTight c.signature w.signature)))
      ∙ cut-append (codes "Signature") c.signature b'=' (unfold contains_byte in refl)

  abbrev parts : List Text
  parts =
      (codes "Credential" ++ b'=' ∷ credential c)
      ∷ (codes " SignedHeaders" ++ b'=' ∷ header_names c)
      ∷ (codes " Signature" ++ b'=' ∷ c.signature)
      ∷ []

  abbrev values : List (Text × Text)
  values =
      (codes "Signature", c.signature)
      ∷ (codes "SignedHeaders", header_names c)
      ∷ (codes "Credential", credential c)
      ∷ []

  parts-split : split (join parts (codes ",")) b',' ≡ parts
  unfolding is_plain is_space contains_byte
  parts-split =
      split-join (codes "Credential" ++ b'=' ∷ credential c)
        ((codes " SignedHeaders" ++ b'=' ∷ header_names c)
          ∷ (codes " Signature" ++ b'=' ∷ c.signature)
          ∷ [])
        b',' credential-no_comma
        (names-no_comma, (IsPlain-without b',' c.signature refl w.signature, tt))

  parts-fields : authorization_fields [] parts ≡ some values
  parts-fields =
      fields-step [] _ _ (credential c) _ cut-credential
        (unfold join in not_empty c.access_key b'/' _)
      ∙ fields-step _ _ _ (header_names c) _ cut-signed_headers
          (join-not_empty c.first_byte c.first_header c.headers (codes ";"))
      ∙ fields-step _ _ _ c.signature _ cut-signature w.signed
      ∙ unfold authorization_fields in refl

  authorization_of-parts :
      authorization_of (credential c) (header_names c) c.signature [] (pos 0) false
      ≡ some (authorization c)
  unfolding authorization_of
  authorization_of-parts =
      ap
        (λ scope.
          authorization_with (credential_scope scope) (split (header_names c) b';') c.signature []
            (pos 0) false)
        credential-split
      ∙ ap
          (λ names.
            authorization_with (some (c.access_key, c.date, c.region, c.service)) names c.signature
              [] (pos 0) false)
          names-split
      ∙ unfold authorization_with credential_scope text_eq in refl

  authorization_of_fields-parts : authorization_of_fields (some values) ≡ some (authorization c)
  unfolding authorization_of_fields field_value text_eq
  authorization_of_fields-parts = if_false _ _ w.signed ∙ authorization_of-parts

-- parseSigV4Authorization of the header that a client writes, whose fields have no white space, comma,
-- slash or semicolon, whose first signed header is not empty and which has a signature, is the
-- authorization that the client wrote, its signature in lower case.
pub parse_sig_v4_authorization-authorization_header :
    (c : Signed)
    → IsWritten c
    → parse_sig_v4_authorization (authorization_header c) ≡ some (authorization c)
unfolding parse_sig_v4_authorization authorization_header
parse_sig_v4_authorization-authorization_header c w =
    let scheme = algorithm ++ codes " " in
    let rest = join (parts c w) (codes ",") in
    if_true _ none (has_prefix-append scheme rest)
    ∙ ap (λ t. authorization_of_fields (authorization_fields [] (split t b',')))
        (trim_prefix-append scheme rest)
    ∙ ap (λ l. authorization_of_fields (authorization_fields [] l)) (parts-split c w)
    ∙ ap authorization_of_fields (parts-fields c w)
    ∙ authorization_of_fields-parts c w
