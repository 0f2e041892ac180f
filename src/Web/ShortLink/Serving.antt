-- ===== src/Web/ShortLink/Serving.antt =====
-- What a reader of a link gets.
use tg_files.Common.{
  ℕ, ◌+◌, ◌-◌, ◌≤◌, ◌<◌, Text, Bool, true, false, not, ◌&&◌, [], Option, none, some, ◌≡◌, refl,
  arith, text_eq, ok, err, take, drop, length, length-drop, length-take, ap, ◌∙◌, inl, inr,
  Option-cases, Bool-cases, ◌⊎◌, subst,
}
use tg_files.Golang.Int64.{ltb_ℤ, pos, int64_max, sub64_pos, add64_pos}
use tg_files.Metadata.Types.{DirectLink, LinkRow, Object, ObjectRow, Time, Db, unix_seconds}
use tg_files.Metadata.Sql.{calm, not_found}
use tg_files.Metadata.Sql.Calm.{bind_ok, query-calm, pure-calm, raise-calm}
use tg_files.Metadata.Table.{find}
use tg_files.Metadata.Statements.{eqb_ℤ, link_key, select_object, select_chunks}
use tg_files.Metadata.Links.{is_zero, get_direct_link_by_token, link_of_row, scan_link}
use tg_files.Metadata.Objects.{scan_object, object_of_row}
use tg_files.Metadata.Objects.RoundTrip.{get_found}
use tg_files.Store.UploadStrategy.{one_of}
use tg_files.Store.Range.{ByteRange, parse_range, range_length}
use tg_files.Store.Range.Parsing.{parse_range-WithinObject}
use tg_files.Store.Range.Reassembly.{Contiguous, object_bytes}
use tg_files.Store.Multipart.{ObjectStore, head_bucket, before, startup_names}
use tg_files.Store.Multipart.Layout.{chunk_refs_from_metadata}
use tg_files.Store.Objects
use tg_files.Store.Objects.Reads.{read_object-range}
use tg_files.Web.ShortLink.{
  Answer, refused, answered, is_expired, deliver, serve_range, serve_link, handle_direct_link,
}
use tg_files.Metadata.Objects as Rows

pub get_direct_link_by_token_ok :
    (token : Text) (db : Db) (row : LinkRow)
    → find link_key text_eq token db.direct_links ≡ some row
    → get_direct_link_by_token token (calm db) ≡ (ok (link_of_row row), calm db)
unfolding get_direct_link_by_token scan_link
get_direct_link_by_token_ok token db row there =
    let read : Db → Option LinkRow = λ d. find link_key text_eq token d.direct_links in
    bind_ok _ scan_link (calm db) (read db) (query-calm read db)
    ∙ rw there (pure-calm (link_of_row row) (calm db))

get_direct_link_by_token-none :
    (token : Text) (db : Db)
    → find link_key text_eq token db.direct_links ≡ none
    → get_direct_link_by_token token (calm db) ≡ (err not_found, calm db)
unfolding get_direct_link_by_token scan_link
get_direct_link_by_token-none token db absent =
    let read : Db → Option LinkRow = λ d. find link_key text_eq token d.direct_links in
    bind_ok _ scan_link (calm db) (read db) (query-calm read db)
    ∙ rw absent (raise-calm not_found (calm db))

head_object_row :
    (bucket key : Text) (db : Db) (row : ObjectRow)
    → select_object bucket key db ≡ some row
    → Rows.head_object bucket key (calm db) ≡ (ok (object_of_row row), calm db)
unfolding Rows.head_object scan_object
head_object_row bucket key db row there =
    bind_ok _ scan_object (calm db) (select_object bucket key db)
      (query-calm (select_object bucket key) db)
    ∙ rw there (pure-calm (object_of_row row) (calm db))

-- HeadObject of a served bucket.
head_object_ok :
    (bucket key : Text) (db : Db) (row : ObjectRow) (s : ObjectStore)
    → one_of bucket (startup_names s) ≡ true
    → s.session ≡ calm db
    → select_object bucket key db ≡ some row
    → Objects.head_object bucket key s ≡ (ok (object_of_row row), record s { session = calm db })
unfolding Objects.head_object head_bucket
head_object_ok bucket key db row s served e there =
    rw (served, e, head_object_row bucket key db row there, Objects.head_object, head_bucket) refl

range_length-pos :
    (a b : ℕ)
    → a ≤ b
    → b < int64_max
    → range_length (record { start = pos a; end = pos b }) ≡ pos (b + 1 - a)
unfolding range_length
range_length-pos a b h k = ground (arith, sub64_pos b a, add64_pos (b - a) 1)

serve_range_ok :
    (content : Text → Text) (link : DirectLink) (header : Text) (s s' : ObjectStore)
    (object : Object) (range : ByteRange)
    → Objects.head_object link.bucket link.key s ≡ (ok object, s')
    → parse_range header object.size ≡ ok range
    → serve_range content link header s ≡ deliver content link (some range) s'
unfolding serve_range
serve_range_ok content link header s s' object range there accepted =
    rw (there, accepted, serve_range)
      (ap (λ t. deliver content link (some range) t) (ap (λ r. r.1) there))

-- A GET with a Range header, for a link that is live.
serve_link_range :
    (content : Text → Text) (link : DirectLink) (header : Text) (now : Time) (s : ObjectStore)
    → link.revoked ≡ false
    → is_expired link now ≡ false
    → text_eq header [] ≡ false
    → serve_link content link false header now s ≡ serve_range content link header s
unfolding serve_link
serve_link_range content link header now s live fresh given =
    rw (live, fresh, given, serve_link) refl

serve_dead :
    (content : Text → Text) (link : DirectLink) (header : Text) (is_head : Bool) (now : Time)
    (s : ObjectStore)
    → not link.revoked && not (is_expired link now) ≡ false
    → serve_link content link is_head header now s ≡ (refused 404, s)
unfolding serve_link
serve_dead content link header is_head now s dead = elim (Bool-cases link.revoked) [
  | inl revoked ↦ rw (revoked, serve_link) refl
  | inr kept ↦
      let late : is_expired link now ≡ true = ground arith in rw (kept, late, serve_link) refl
]

pub handle_direct_link_ok :
    (content : Text → Text) (token header : Text) (is_head : Bool) (now : Time) (s : ObjectStore)
    (db : Db) (link : DirectLink)
    → text_eq token [] ≡ false
    → s.session ≡ calm db
    → get_direct_link_by_token token (calm db) ≡ (ok link, calm db)
    → handle_direct_link content token is_head header now s
      ≡ serve_link content link is_head header now (record s { session = calm db })
unfolding handle_direct_link
handle_direct_link_ok content token header is_head now s db link named e known =
    let found : get_direct_link_by_token token s.session ≡ (ok link, calm db) = rw e known in
    rw (named, found, handle_direct_link)
      (ap (λ t. serve_link content link is_head header now (record s { session = t }))
        (ap (λ r. r.1) found))

module _ (content : Text → Text) (db : Db) (row : LinkRow) (object : ObjectRow) where
  abbrev pub stored_bytes : Text
  stored_bytes =
      object_bytes content (chunk_refs_from_metadata (select_chunks row.bucket row.key db))

  abbrev pub part_answer : ℕ → ℕ → Answer
  part_answer a b = record {
    status = 206;
    content_length = pos (length (take (b + 1 - a) (drop a stored_bytes)));
    content_range = some (record { start = pos a; end = pos b }, object.size);
    body = take (b + 1 - a) (drop a stored_bytes);
  }

  deliver-range :
      (s : ObjectStore) (a b : ℕ)
      → one_of row.bucket (startup_names s) ≡ true
      → s.session ≡ calm db
      → select_object row.bucket row.key db ≡ some object
      → Contiguous content 0 (chunk_refs_from_metadata (select_chunks row.bucket row.key db))
      → length stored_bytes ≤ int64_max
      → a ≤ b
      → b < length stored_bytes
      → (deliver content (link_of_row row) (some (record { start = pos a; end = pos b })) s).0
        ≡ answered (part_answer a b)
  unfolding deliver link_of_row object_of_row
  deliver-range s a b served e there contiguous fits h k =
      let counted : length (take (b + 1 - a) (drop a stored_bytes)) ≡ b + 1 - a =
        length-take (b + 1 - a) (drop a stored_bytes) (omega (arith, length-drop a stored_bytes)) in
      let found = ap (λ r. r.0) (get_found row.bucket row.key db (some object) there) in
      let read =
        read_object-range content row.bucket row.key a b s (object_of_row object)
          (select_chunks row.bucket row.key db) served (rw e found) contiguous h k fits in
      rw (read, deliver) (rw (range_length-pos a b h (omega arith), counted) refl)

  -- On a session whose engine refuses nothing, a GET of a link that is there, not revoked and not
  -- expired, to an object of a served bucket whose chunks follow one another without a gap, as long as
  -- their files and together as long as the object and no longer than the largest int64, with a Range
  -- header that ParseRange accepts, is answered with status 206, exactly the bytes of the range as the
  -- body, the length of this body as Content-Length, and the range and the size as Content-Range.
  pub handle_direct_link-range :
      (token header : Text) (now : Time) (s : ObjectStore) (a b : ℕ)
      → text_eq token [] ≡ false
      → find link_key text_eq token db.direct_links ≡ some row
      → (link_of_row row).revoked ≡ false
      → is_expired (link_of_row row) now ≡ false
      → one_of row.bucket (startup_names s) ≡ true
      → s.session ≡ calm db
      → select_object row.bucket row.key db ≡ some object
      → Contiguous content 0 (chunk_refs_from_metadata (select_chunks row.bucket row.key db))
      → object.size ≡ pos (length stored_bytes)
      → length stored_bytes ≤ int64_max
      → text_eq header [] ≡ false
      → parse_range header object.size ≡ ok (record { start = pos a; end = pos b })
      → (handle_direct_link content token false header now s).0 ≡ answered (part_answer a b)
  unfolding link_of_row object_of_row
  handle_direct_link-range token header now s a b named known live fresh served e there contiguous
        sized fits given accepted =
      let s' : ObjectStore = record s { session = calm db } in
      let (_, _, h, k) =
        parse_range-WithinObject header object.size (record { start = pos a; end = pos b })
          (rw sized fits) accepted in
      let answer = deliver-range s' a b served refl there contiguous fits h (rw sized at k) in
      ap (λ t. t.0)
        (handle_direct_link_ok content token header false now s db (link_of_row row) named e
            (get_direct_link_by_token_ok token db row known)
          ∙ serve_link_range content (link_of_row row) header now s' live fresh given
          ∙ serve_range_ok content (link_of_row row) header s' s' (object_of_row object)
              (record { start = pos a; end = pos b })
              (head_object_ok row.bucket row.key db object s' served refl there) accepted)
      ∙ answer

-- Nobody may follow a link with this row, or without one: the row is marked as revoked, or it has a
-- time to expire at, in seconds since 1970, and the clock is past it, by seconds or within the second.
abbrev pub IsDead : Time → Option LinkRow → Type 0
IsDead now none = Unit
IsDead now (some row) =
    (0 < row.revoked)
    ⊎ ((ltb_ℤ (pos 0) row.expires_at ≡ true)
        × ((ltb_ℤ row.expires_at now.seconds ≡ true)
            ⊎ ((row.expires_at ≡ now.seconds) × (0 < now.nanos))))

is_expired_late :
    (row : LinkRow) (now : Time)
    → ltb_ℤ (pos 0) row.expires_at ≡ true
    → before (unix_seconds row.expires_at) now ≡ true
    → is_expired (link_of_row row) now ≡ true
unfolding is_expired link_of_row is_zero eqb_ℤ unix_seconds
is_expired_late row now some_time late = rw some_time (ground arith)

dead_row :
    (row : LinkRow) (now : Time)
    → IsDead now (some row)
    → not (link_of_row row).revoked && not (is_expired (link_of_row row) now) ≡ false
dead_row row now (inl revoked) = unfold link_of_row in ground arith
dead_row row now (inr (some_time, inl earlier)) =
    let late = is_expired_late row now some_time (unfold before unix_seconds in ground arith) in
    rw late (ground arith)
dead_row row now (inr (some_time, inr (second, nanos))) =
    let late =
      is_expired_late row now some_time
        (unfold before unix_seconds eqb_ℤ in rw second (ground arith)) in
    rw late (ground arith)

-- On a session whose engine refuses nothing, any request for a token that is not there, or whose row
-- is marked as revoked, or has a time to expire at that the clock is past, by whole seconds or within
-- the second, is answered with status 404, and no click is counted.
pub handle_direct_link-refused :
    (content : Text → Text) (token header : Text) (is_head : Bool) (now : Time) (s : ObjectStore)
    (db : Db)
    → s.session ≡ calm db
    → IsDead now (find link_key text_eq token db.direct_links)
    → handle_direct_link content token is_head header now s
      ≡ (refused 404, record s { session = calm db })
unfolding handle_direct_link serve_link
handle_direct_link-refused content token header is_head now s db e dead =
    let s' : ObjectStore = record s { session = calm db } in
    elim (Bool-cases (text_eq token [])) [
      | inl unnamed ↦ rw (unnamed, e, handle_direct_link) refl
      | inr named ↦ elim (Option-cases (find link_key text_eq token db.direct_links)) [
        | inl absent ↦
            (let found : get_direct_link_by_token token s.session ≡ (err not_found, calm db) =
                rw e (get_direct_link_by_token-none token db absent) in
              rw (named, found, handle_direct_link)
                (ap (λ t. (refused 404, record s { session = t })) (ap (λ r. r.1) found)))
        | inr (row, known) ↦
            handle_direct_link_ok content token header is_head now s db (link_of_row row) named e
              (get_direct_link_by_token_ok token db row known)
            ∙ serve_dead content (link_of_row row) header is_head now s'
                (dead_row row now (subst (IsDead now) known dead))
      ]
    ]
