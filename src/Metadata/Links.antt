-- ===== src/Metadata/Links.antt =====
-- metadata/sqlite.go: direct links.
use tg_files.Common.{
  ℕ, ◌+◌, Text, Bool, true, not, ◌&&◌, List, [], Option, none, some, if◌then◌else◌, map, text_eq,
  select, length, ◌==◌, Result, ok, err, text_lt, take,
}
use tg_files.Golang.Int64.{ℤ, pos, pos_part, neg_part, leb_ℤ, ltb_ℤ, sub_ℕ}
use tg_files.Metadata.Types.{DirectLink, LinkRow, Db, Time, zero_time, unix_seconds}
use tg_files.Metadata.Sql.{
  Sql, DbError, pure, raise, exec, exec_counted, query, ◌>>=◌, not_found, constraint,
}
use tg_files.Metadata.Table.{find, insert}
use tg_files.Metadata.Statements.{link_key, order_by, eqb_ℤ}

-- time.Time.IsZero
unfoldable pub is_zero : Time → Bool
unfolding eqb_ℤ
is_zero t = eqb_ℤ t.seconds zero_time.seconds && t.nanos == 0

-- The columns that CreateDirectLink sends: a new link is not revoked and has no clicks.
unfoldable pub row_of_link : DirectLink → LinkRow
unfolding is_zero
row_of_link l = record {
  token = l.token;
  bucket = l.bucket;
  key = l.key;
  filename = l.filename;
  created_at = l.created_at.seconds;
  expires_at = if is_zero l.expires_at then pos 0 else l.expires_at.seconds;
  created_by = l.created_by;
  revoked = 0;
  click_count = pos 0;
}

-- scanDirectLink on a row
unfoldable pub link_of_row : LinkRow → DirectLink
unfolding unix_seconds
link_of_row r = record {
  token = r.token;
  bucket = r.bucket;
  key = r.key;
  filename = r.filename;
  created_at = unix_seconds r.created_at;
  expires_at = if ltb_ℤ (pos 0) r.expires_at then unix_seconds r.expires_at else zero_time;
  created_by = r.created_by;
  revoked = not (r.revoked == 0);
  click_count = r.click_count;
}

unfoldable pub insert_link : LinkRow → Db → Result DbError Db
insert_link row db = elim (insert link_key text_eq row db.direct_links) [
  | none ↦ err constraint
  | some rows ↦ ok (record db { direct_links = rows })
]

unfoldable pub create_direct_link : DirectLink → Sql Unit
unfolding row_of_link insert_link
create_direct_link link = exec (insert_link (row_of_link link))

-- no row is ErrNotFound
unfoldable pub scan_link : Option LinkRow → Sql DirectLink
unfolding link_of_row
scan_link none = raise not_found
scan_link (some row) = pure (link_of_row row)

unfoldable pub get_direct_link_by_token : Text → Sql DirectLink
unfolding scan_link
get_direct_link_by_token token = do
  row ← query (λ db. find link_key text_eq token db.direct_links)
  scan_link row

pub record ListLinksQuery : Type 0 where
  pub bucket : Text
  pub after_tok : Text
  pub limit : ℤ

unfoldable pub token_before : LinkRow → LinkRow → Bool
token_before x y = text_lt x.token y.token

-- The WHERE clause of each of the four queries.
unfoldable pub link_filter : Text → Text → LinkRow → Bool
link_filter bucket after_tok row =
    if not (text_eq bucket []) && not (text_eq after_tok [])
    then text_eq row.bucket bucket && text_lt after_tok row.token
    else if not (text_eq bucket [])
    then text_eq row.bucket bucket
    else if not (text_eq after_tok [])
    then text_lt after_tok row.token
    else true

-- … ORDER BY token ASC LIMIT ?
unfoldable pub list_direct_links : ListLinksQuery → Sql (List DirectLink)
unfolding link_of_row token_before link_filter order_by
list_direct_links q = do
  let limit = if leb_ℤ q.limit (pos 0) then 100 else pos_part q.limit
  rows ← query (λ db.
      take limit
        (order_by token_before (select (link_filter q.bucket q.after_tok) db.direct_links)))
  pure (map link_of_row rows)

unfoldable pub revoked_row : Text → LinkRow → LinkRow
revoked_row token row = if text_eq row.token token then record row { revoked = 1 } else row

unfoldable pub revoke_rows : Text → Db → ℕ × Db
unfolding revoked_row
revoke_rows token db = (
  length (select (λ (r : LinkRow). text_eq r.token token) db.direct_links),
  record db { direct_links = map (revoked_row token) db.direct_links },
)

unfoldable pub revoke_direct_link : Text → Sql Unit
unfolding revoke_rows
revoke_direct_link token = do
  affected ← exec_counted (revoke_rows token)
  if affected == 0 then raise not_found else pure tt

-- click_count + 1, exact below 2 ^ 63 clicks
unfoldable pub clicked_row : Text → LinkRow → LinkRow
clicked_row token row =
    if text_eq row.token token
    then record row {
      click_count = sub_ℕ (pos_part row.click_count + 1) (neg_part row.click_count);
    }
    else row

unfoldable pub click_rows : Text → Db → Result DbError Db
unfolding clicked_row
click_rows token db = ok (record db { direct_links = map (clicked_row token) db.direct_links })

unfoldable pub increment_direct_link_click : Text → Sql Unit
unfolding click_rows
increment_direct_link_click token = exec (click_rows token)
