-- ===== src/Web/ShortLink/Clicks.antt =====
-- A whole read by way of a link, and the click that it counts.
use tg_files.Common.{
  ◌+◌, zero, suc, arith, List, ◌∷◌, text_eq_iff, Bool-cases, inl, inr, Text, true, false, [], none,
  some, ◌≡◌, refl, text_eq, eq_of_text_eq, ok, length, ap, ◌∙◌, map,
}
use tg_files.Golang.Int64.{ℤ, pos, negsuc, pos_part, neg_part, sub_ℕ}
use tg_files.Metadata.Types.{DirectLink, LinkRow, ObjectRow, Object, Time, Db}
use tg_files.Metadata.Sql.{calm}
use tg_files.Metadata.Sql.Calm.{exec_ok}
use tg_files.Metadata.Table.{find}
use tg_files.Metadata.Table.Members.{find-same}
use tg_files.Metadata.Statements.{link_key, select_object, select_chunks}
use tg_files.Metadata.Links.{link_of_row, clicked_row, click_rows, increment_direct_link_click}
use tg_files.Metadata.Objects as Rows
use tg_files.Metadata.Objects.{object_of_row}
use tg_files.Metadata.Objects.RoundTrip.{get_found}
use tg_files.Store.UploadStrategy.{one_of}
use tg_files.Store.Range.Reassembly.{Contiguous}
use tg_files.Store.Multipart.{ObjectStore, head_bucket, startup_names}
use tg_files.Store.Multipart.Layout.{chunk_refs_from_metadata}
use tg_files.Store.Objects.{read_object, get_object}
use tg_files.Store.Objects.Reads.{read_object-whole_chunks}
use tg_files.Web.ShortLink.{answered, is_expired, deliver, serve_link, handle_direct_link}
use tg_files.Web.ShortLink.Serving.{
  stored_bytes, handle_direct_link_ok, get_direct_link_by_token_ok,
}

-- The tables with the click counted at the token.
abbrev pub clicked : Text → Db → Db
clicked token db = record db { direct_links = map (clicked_row token) db.direct_links }

increment_direct_link_click-calm :
    (token : Text) (db : Db)
    → increment_direct_link_click token (calm db) ≡ (ok tt, calm (clicked token db))
unfolding increment_direct_link_click click_rows
increment_direct_link_click-calm token db = exec_ok (click_rows token) {db' = clicked token db} refl

-- A read leaves the store as it was.
read_object_state :
    (content : Text → Text) (bucket key : Text) (s : ObjectStore) (db : Db) (row : ObjectRow)
    → one_of bucket (startup_names s) ≡ true
    → s.session ≡ calm db
    → select_object bucket key db ≡ some row
    → (read_object content bucket key none s).1 ≡ record s { session = calm db }
unfolding read_object get_object head_bucket
read_object_state content bucket key s db row served e there =
    let found : Rows.get_object bucket key s.session
        ≡ (ok (object_of_row row, select_chunks bucket key db), calm db) =
      rw e (get_found bucket key db (some row) there) in
    rw (served, read_object, get_object, head_bucket)
      (ap (λ t. record s { session = t }) (ap (λ r. r.1) found))

deliver_whole :
    (content : Text → Text) (link : DirectLink) (s : ObjectStore) (db : Db) (object : Object)
    (body : Text)
    → (read_object content link.bucket link.key none s).0 ≡ ok (object, body)
    → (read_object content link.bucket link.key none s).1 ≡ record s { session = calm db }
    → deliver content link none s ≡ (
      answered (record {
        status = 200;
        content_length = object.size;
        content_range = none;
        body = body;
      }),
      record s { session = calm (clicked link.token db) },
    )
unfolding deliver
deliver_whole content link s db object body read state =
    rw (read, state, increment_direct_link_click-calm link.token db, deliver) refl

-- A GET without a Range header, for a link that is live.
serve_link_whole :
    (content : Text → Text) (link : DirectLink) (now : Time) (s : ObjectStore)
    → link.revoked ≡ false
    → is_expired link now ≡ false
    → serve_link content link false [] now s ≡ deliver content link none s
unfolding serve_link text_eq
serve_link_whole content link now s live fresh = rw (live, fresh, serve_link) refl

-- The integer behind an integer.
abbrev pub next : ℤ → ℤ
next (pos n) = pos (suc n)
next (negsuc zero) = pos 0
next (negsuc (suc n)) = negsuc n

next-sub_ℕ : (z : ℤ) → sub_ℕ (pos_part z + 1) (neg_part z) ≡ next z
next-sub_ℕ (pos n) = ground arith
next-sub_ℕ (negsuc zero) = ground arith
next-sub_ℕ (negsuc (suc n)) = ground arith

-- Tables that differ in the clicks of the rows that a query by the token finds, by one.
pub record Counted (token : Text) (row : LinkRow) (db db' : Db) : Type 0 where
  pub buckets : db'.buckets ≡ db.buckets
  pub objects : db'.objects ≡ db.objects
  pub chunks : db'.object_chunks ≡ db.object_chunks
  pub at_token :
      find link_key text_eq token db'.direct_links
      ≡ some (record row { click_count = next row.click_count })
  pub elsewhere :
      (other : Text)
      → text_eq token other ≡ false
      → find link_key text_eq other db'.direct_links ≡ find link_key text_eq other db.direct_links
  pub tokens : map link_key db'.direct_links ≡ map link_key db.direct_links

find-clicked :
    (token : Text) (row : LinkRow) (rows : List LinkRow)
    → find link_key text_eq token rows ≡ some row
    → find link_key text_eq token (map (clicked_row token) rows)
      ≡ some (record row { click_count = next row.click_count })
unfolding find clicked_row
find-clicked token row [] e = cc
find-clicked token row (r ∷ rows) e = elim (Bool-cases (text_eq r.token token)) [
  | inl here ↦
      let same : r ≡ row = ground arith in
      let found : text_eq row.token token ≡ true = rw (← same) here in
      rw (here, next-sub_ℕ r.click_count, same, found) refl
  | inr there ↦ rw (there, there) (find-clicked token row rows (ground arith))
]

find-clicked_other :
    (token other : Text) (rows : List LinkRow)
    → text_eq token other ≡ false
    → find link_key text_eq other (map (clicked_row token) rows) ≡ find link_key text_eq other rows
unfolding find clicked_row
find-clicked_other token other [] h = refl
find-clicked_other token other (r ∷ rows) h = ground (
  arith,
  find-clicked_other token other rows h,
  text_eq_iff r.token token,
  text_eq_iff r.token other,
  text_eq_iff token other,
)

tokens-clicked :
    (token : Text) (rows : List LinkRow)
    → map link_key (map (clicked_row token) rows) ≡ map link_key rows
unfolding clicked_row
tokens-clicked token [] = refl
tokens-clicked token (r ∷ rows) = ground (arith, tokens-clicked token rows)

clicked-Counted :
    (token : Text) (row : LinkRow) (db : Db)
    → find link_key text_eq token db.direct_links ≡ some row
    → Counted token row db (clicked token db)
clicked-Counted token row db known = record {
  buckets = refl;
  objects = refl;
  chunks = refl;
  at_token = find-clicked token row db.direct_links known;
  elsewhere = λ other h. find-clicked_other token other db.direct_links h;
  tokens = tokens-clicked token db.direct_links;
}

-- On a session whose engine refuses nothing, a GET without a Range header of a link that is there, not
-- revoked and not expired, to an object of a served bucket whose chunks follow one another without a
-- gap, as long as their files and together as long as the object, is answered with status 200, the
-- bytes of all files as the body and the length of this body as Content-Length. Of the tables only the
-- clicks have changed: the row that is found at the token has one more, every other token finds the
-- row it found before, and the table has the same tokens in the same order.
pub handle_direct_link-clicked :
    (content : Text → Text) (token : Text) (now : Time) (db : Db) (row : LinkRow)
    (object : ObjectRow) (s : ObjectStore)
    → text_eq token [] ≡ false
    → find link_key text_eq token db.direct_links ≡ some row
    → (link_of_row row).revoked ≡ false
    → is_expired (link_of_row row) now ≡ false
    → one_of row.bucket (startup_names s) ≡ true
    → s.session ≡ calm db
    → select_object row.bucket row.key db ≡ some object
    → Contiguous content 0 (chunk_refs_from_metadata (select_chunks row.bucket row.key db))
    → object.size ≡ pos (length (stored_bytes content db row object))
    → (after : Db) × Counted token row db after
      × (handle_direct_link content token false [] now s ≡ (
        answered (record {
          status = 200;
          content_length = pos (length (stored_bytes content db row object));
          content_range = none;
          body = stored_bytes content db row object;
        }),
        record s { session = calm after },
      ))
unfolding link_of_row object_of_row
handle_direct_link-clicked content token now db row object s named known live fresh served e there
      contiguous sized =
    let s' : ObjectStore = record s { session = calm db } in
    let same : row.token ≡ token =
      eq_of_text_eq row.token token (find-same link_key text_eq token row db.direct_links known) in
    let found = ap (λ r. r.0) (get_found row.bucket row.key db (some object) there) in
    let read =
      read_object-whole_chunks content row.bucket row.key s' (object_of_row object)
        (select_chunks row.bucket row.key db) served found contiguous in
    let state = read_object_state content row.bucket row.key s' db object served refl there in
    (
      clicked token db,
      clicked-Counted token row db known,
      handle_direct_link_ok content token [] false now s db (link_of_row row) named e
            (get_direct_link_by_token_ok token db row known)
          ∙ serve_link_whole content (link_of_row row) now s' live fresh
          ∙ deliver_whole content (link_of_row row) s' db (object_of_row object) _ read state
          ∙ rw (sized, same) refl,
    )
