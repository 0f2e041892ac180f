-- ===== src/S3Api/Encoding/Tests.antt =====
-- The encoding at concrete inputs.
use tg_files.Common.{codes, true, false, [], ◌≡◌, refl, arith}
use tg_files.Golang.Splitting.{split}
use tg_files.Golang.Sorting.{swap}
use tg_files.S3Api.Encoding.{sig_v4_encode, percent_decode, canonical_query_string, canonical_uri}
use tg_files.S3Api.Encoding.RoundTrip.{percent_decode-sig_v4_encode}
use tg_files.S3Api.Encoding.Order.{canonical_query_string-Reordered}

percent_decode-sig_v4_encode_example :
    percent_decode (sig_v4_encode (codes "a b/%") true) ≡ codes "a b/%"
percent_decode-sig_v4_encode_example = percent_decode-sig_v4_encode (codes "a b/%") (omega arith)

encoded : sig_v4_encode (codes "a b/%") true ≡ codes "a%20b%2F%25"
unfolding sig_v4_encode
encoded = refl

-- A path that net/url has escaped is escaped once more.
uri : canonical_uri (codes "/photos/a%20b") ≡ codes "/photos/a%2520b"
unfolding canonical_uri
uri = refl

canonical_query_string-Reordered_example :
    canonical_query_string (codes "b=1&a=2") false ≡ canonical_query_string (codes "a=2&b=1") false
canonical_query_string-Reordered_example =
    canonical_query_string-Reordered false b'b' b'a' (codes "=1&a=2") (codes "=2&b=1")
      (unfold split in swap (codes "b=1") (codes "a=2") [])
