-- ===== src/Metadata/Types.antt =====
-- metadata/types.go, and the rows of the four tables of `migrate`.
use tg_files.Common.{ℕ, Text, List, Bool, true, false}
use tg_files.Golang.Int64.{ℤ, negsuc}

-- time.Time: the seconds since 1970 and the nanoseconds of the second.
pub record Time : Type 0 where
  pub seconds : ℤ
  pub nanos : ℕ

-- unixSeconds
unfoldable pub unix_seconds : ℤ → Time
unix_seconds value = record { seconds = value; nanos = 0 }

-- the zero time.Time, 1 January of the year 1
abbrev pub zero_time : Time
zero_time = record { seconds = negsuc 62135596799; nanos = 0 }

pub record Bucket : Type 0 where
  pub name : Text
  pub chat_id : Text
  pub created_at : Time
  pub enabled : Bool

pub record Object : Type 0 where
  pub bucket : Text
  pub key : Text
  pub size : ℤ
  pub content_type : Text
  pub etag : Text
  pub sha256 : Text
  pub last_modified : Time
  pub chunk_count : ℤ
  pub telegram_type : Text
  pub upload_strategy : Text

pub record Chunk : Type 0 where
  pub bucket : Text
  pub key : Text
  pub part_number : ℤ
  pub offset : ℤ
  pub size : ℤ
  pub telegram_type : Text
  pub telegram_file_id : Text
  pub telegram_message_id : ℤ
  pub telegram_file_unique_id : Text
  pub sha256 : Text

pub record ListQuery : Type 0 where
  pub bucket : Text
  pub prefix : Text
  pub after_key : Text
  pub limit : ℤ

pub record BucketRename : Type 0 where
  pub buckets : ℕ
  pub objects : ℕ
  pub chunks : ℕ

pub record DirectLink : Type 0 where
  pub token : Text
  pub bucket : Text
  pub key : Text
  pub filename : Text
  pub created_at : Time
  pub expires_at : Time
  pub created_by : Text
  pub revoked : Bool
  pub click_count : ℤ

-- A row of `buckets`: the INTEGER columns for a time and a Boolean.
pub record BucketRow : Type 0 where
  pub name : Text
  pub chat_id : Text
  pub created_at : ℤ
  pub enabled : ℕ

-- A row of `objects`. A row of `object_chunks` has the fields of a `Chunk`.
pub record ObjectRow : Type 0 where
  pub bucket : Text
  pub key : Text
  pub size : ℤ
  pub content_type : Text
  pub etag : Text
  pub sha256 : Text
  pub last_modified : ℤ
  pub chunk_count : ℤ
  pub telegram_type : Text
  pub upload_strategy : Text

-- A row of `direct_links`.
pub record LinkRow : Type 0 where
  pub token : Text
  pub bucket : Text
  pub key : Text
  pub filename : Text
  pub created_at : ℤ
  pub expires_at : ℤ
  pub created_by : Text
  pub revoked : ℕ
  pub click_count : ℤ

-- The four tables of `migrate`.
pub record Db : Type 0 where
  pub buckets : List BucketRow
  pub objects : List ObjectRow
  pub object_chunks : List Chunk
  pub direct_links : List LinkRow

-- boolToInt
unfoldable pub bool_to_int : Bool → ℕ
bool_to_int true = 1
bool_to_int false = 0
