-- ===== src/Web/ShortLink.antt =====
-- internal/web/shortlink.go: handleDirectLink, which serves the object of a link to anyone who has the
-- link's token. Of the headers, those that tell the length and the range are kept.
pub mod Serving
pub mod Clicks
mod Tests
use tg_files.Common.{
  ℕ, Text, Bool, true, false, not, ◌&&◌, [], Option, none, some, if◌then◌else◌, text_eq, Result, ok,
  err,
}
use tg_files.Golang.Int64.{ℤ}
use tg_files.Metadata.Types.{DirectLink, Time}
use tg_files.Metadata.Sql.{not_found}
use tg_files.Metadata.Links.{get_direct_link_by_token, increment_direct_link_click, is_zero}
use tg_files.Store.Types.{
  Failure, store, meta, no_such_bucket, no_such_key, entity_too_large, missing_content_length,
  invalid_range, invalid_argument,
}
use tg_files.Store.Range.{ByteRange, parse_range, range_length}
use tg_files.Store.Multipart.{ObjectStore, before}
use tg_files.Store.Objects

pub record Answer : Type 0 where
  pub status : ℕ
  pub content_length : ℤ
  -- the range and the size of Content-Range
  pub content_range : Option (ByteRange × ℤ)
  pub body : Text

-- A refusal has a status and a message.
pub data Response : Type 0 where
  refused : ℕ → Response
  answered : Answer → Response

-- writeStoreError of internal/web/api_files.go
unfoldable pub store_error_status : Failure → ℕ
store_error_status (store no_such_bucket) = 404
store_error_status (store no_such_key) = 404
store_error_status (store entity_too_large) = 413
store_error_status (store missing_content_length) = 411
store_error_status (store invalid_range) = 416
store_error_status (store invalid_argument) = 400
store_error_status (meta not_found) = 404
store_error_status e = 500

unfoldable pub is_expired : DirectLink → Time → Bool
unfolding is_zero before
is_expired link now = not (is_zero link.expires_at) && before link.expires_at now

module _ (content : Text → Text) where
  -- From GetObject to the end. The click is counted by a goroutine of its own, which may fail.
  unfoldable pub deliver : DirectLink → Option ByteRange → ObjectStore → Response × ObjectStore
  unfolding Objects.read_object range_length increment_direct_link_click
  deliver link range s =
      let (r, s') = Objects.read_object content link.bucket link.key range s in
      elim r [
        | err e ↦ (refused (store_error_status e), s')
        | ok found ↦
            let size = (found.0).size in
            let answer : Answer = elim range [
              | none ↦ record {
                status = 200;
                content_length = size;
                content_range = none;
                body = found.1;
              }
              | some part ↦ record {
                status = 206;
                content_length = range_length part;
                content_range = some (part, size);
                body = found.1;
              }
            ] in
            (
              answered answer,
              record s' { session = (increment_direct_link_click link.token s'.session).1 },
            )
      ]

  unfoldable pub serve_head : DirectLink → ObjectStore → Response × ObjectStore
  unfolding Objects.head_object store_error_status
  serve_head link s =
      let (r, s') = Objects.head_object link.bucket link.key s in
      let response : Response = elim r [
        | err e ↦ refused (store_error_status e)
        | ok object ↦
            answered (record {
              status = 200;
              content_length = object.size;
              content_range = none;
              body = [];
            })
      ] in
      (response, s')

  -- A request with a Range header.
  unfoldable pub serve_range : DirectLink → Text → ObjectStore → Response × ObjectStore
  unfolding Objects.head_object store_error_status parse_range deliver
  serve_range link header s =
      let (r, s') = Objects.head_object link.bucket link.key s in
      elim r [
        | err e ↦ (refused (store_error_status e), s')
        | ok object ↦ elim (parse_range header object.size) [
          | err e ↦ (refused (store_error_status (store e)), s')
          | ok range ↦ deliver link (some range) s'
        ]
      ]

  unfoldable pub serve_link : DirectLink → Bool → Text → Time → ObjectStore → Response × ObjectStore
  unfolding is_expired serve_head serve_range deliver
  serve_link link is_head header now s =
      if link.revoked
      then (refused 404, s)
      else if is_expired link now
      then (refused 404, s)
      else if is_head
      then serve_head link s
      else if text_eq header []
      then deliver link none s
      else serve_range link header s

  -- (*Server).handleDirectLink, with the token of the path and the Range header, empty without one.
  unfoldable pub handle_direct_link :
      Text → Bool → Text → Time → ObjectStore → Response × ObjectStore
  unfolding get_direct_link_by_token serve_link
  handle_direct_link token is_head header now s =
      if text_eq token []
      then (refused 404, s)
      else (let (r, session) = get_direct_link_by_token token s.session in
          let s' : ObjectStore = record s { session = session } in
          elim r [
            | err e ↦ (refused (elim e [ not_found ↦ 404 | e ↦ 500 ]), s')
            | ok link ↦ serve_link link is_head header now s'
          ])
