-- ===== src/Metadata/Tests.antt =====
-- The metadata store at concrete inputs.
use tg_files.Common.{
  Text, codes, ◌≡◌, refl, ok, err, [], ◌∷◌, true, false, ◌&&◌, text_eq, if◌then◌else◌, Bool,
}
use tg_files.Common.{map}
use tg_files.Golang.Strings.{has_prefix, lower_byte}
use tg_files.Golang.Int64.{pos}
use tg_files.Metadata.Types.{Db, Object, Chunk, Time, ObjectRow}
use tg_files.Metadata.Sql.{not_found, calm, DbError}
use tg_files.Metadata.Sql.Atomic.{IsAtomic}
use tg_files.Metadata.Like.{like, prefix_pattern, like-prefix_pattern}
use tg_files.Metadata.Statements.{same_object}
use tg_files.Metadata.Objects
use tg_files.Metadata.Table.{has_key}
use tg_files.Metadata.Like.{escape_like}
use tg_files.Metadata.Objects.{get_object, row_of_object}
use tg_files.Metadata.Objects.RoundTrip.{get_object-put_object, to_seconds}
use tg_files.Metadata.Objects.Moves.{
  get_object-delete_object, move_object-eq-move_result, move_result,
}
use tg_files.Metadata.Prefixes
use tg_files.Common.{◌⊎◌}
use tg_files.Metadata.Prefixes.Moves.{move_prefix-cases}
use tg_files.Metadata.Prefixes.Deletes.{get_object-delete_prefix, is_below}
use tg_files.Metadata.Operations.{Operation, run}
use tg_files.Metadata.Operations.Keys.{HasUniqueKeys}
use tg_files.Metadata.Operations.Atomic.{run-IsAtomic}

abbrev noon : Time
noon = record { seconds = pos 43200; nanos = 5 }

abbrev photos : Text
photos = codes "photos"

abbrev sunset : Object
sunset = record {
  bucket = photos;
  key = codes "Sea/sunset";
  size = pos 3;
  content_type = codes "image/png";
  etag = codes "e1";
  sha256 = [];
  last_modified = noon;
  chunk_count = pos 1;
  telegram_type = codes "document";
  upload_strategy = codes "document";
}

abbrev sunset_chunk : Chunk
sunset_chunk = record {
  bucket = photos;
  key = codes "Sea/sunset";
  part_number = pos 1;
  offset = pos 0;
  size = pos 3;
  telegram_type = codes "document";
  telegram_file_id = codes "f1";
  telegram_message_id = pos 7;
  telegram_file_unique_id = codes "u1";
  sha256 = [];
}

abbrev no_rows : Db
no_rows = record { buckets = []; objects = []; object_chunks = []; direct_links = [] }

abbrev sunset_row : ObjectRow
sunset_row = record {
  bucket = photos;
  key = codes "Sea/sunset";
  size = pos 3;
  content_type = codes "image/png";
  etag = codes "e1";
  sha256 = [];
  last_modified = pos 43200;
  chunk_count = pos 1;
  telegram_type = codes "document";
  upload_strategy = codes "document";
}

abbrev one_object : Db
one_object = record {
  buckets = [];
  objects = sunset_row ∷ [];
  object_chunks = sunset_chunk ∷ [];
  direct_links = [];
}

one_object-HasUniqueKeys : HasUniqueKeys one_object
unfolding has_key
one_object-HasUniqueKeys = record {
  buckets = tt;
  objects = (refl, tt);
  chunks = (refl, tt);
  links = tt;
}

either_case : like (prefix_pattern (codes "a_b")) (codes "A_BC") ≡ true
unfolding like escape_like lower_byte
either_case = refl

like-prefix_pattern_example :
    like (prefix_pattern (codes "a_b")) (codes "A_BC")
    ≡ has_prefix (map lower_byte (codes "A_BC")) (map lower_byte (codes "a_b"))
like-prefix_pattern_example = like-prefix_pattern (codes "a_b") (codes "A_BC")

get_object-put_object_example :
    ((Objects.put_object sunset (sunset_chunk ∷ []) (calm no_rows)).0 ≡ ok tt)
    × ((get_object photos
          (codes "Sea/sunset")
          (Objects.put_object sunset (sunset_chunk ∷ []) (calm no_rows)).1).0
        ≡ ok (to_seconds sunset, sunset_chunk ∷ []))
get_object-put_object_example =
    get_object-put_object sunset (sunset_chunk ∷ []) no_rows (refl, refl, tt)

get_object-delete_object_example :
    ((Objects.delete_object photos (codes "Sea/sunset") (calm one_object)).0 ≡ ok tt)
    × ((get_object photos
          (codes "Sea/sunset")
          (Objects.delete_object photos (codes "Sea/sunset") (calm one_object)).1).0
        ≡ (if same_object (photos, codes "Sea/sunset") (photos, codes "Sea/sunset")
            then err not_found
            else (get_object photos (codes "Sea/sunset") (calm one_object)).0))
get_object-delete_object_example =
    get_object-delete_object photos (codes "Sea/sunset") photos (codes "Sea/sunset") one_object

abbrev sunset_key : Text
sunset_key = codes "Sea/sunset"

move_object-eq-move_result_example :
    (Objects.move_object photos sunset_key sunset_key false noon (calm one_object)).0
    ≡ move_result photos sunset_key sunset_key false noon one_object
move_object-eq-move_result_example =
    move_object-eq-move_result photos sunset_key sunset_key false noon one_object
      one_object-HasUniqueKeys

-- A prefix in lower case takes the object below "Sea/" with it.
get_object-delete_prefix_example :
    ((Prefixes.delete_prefix photos (codes "sea/") (calm one_object)).0 ≡ ok tt)
    × ((get_object photos sunset_key
          (Prefixes.delete_prefix photos (codes "sea/") (calm one_object)).1).0
        ≡ (if text_eq photos photos && is_below (codes "sea/") sunset_key
            then err not_found
            else (get_object photos sunset_key (calm one_object)).0))
get_object-delete_prefix_example =
    get_object-delete_prefix photos (codes "sea/") photos sunset_key one_object

run-IsAtomic_example : IsAtomic (run (Operation.put_object sunset (sunset_chunk ∷ [])))
run-IsAtomic_example = run-IsAtomic (Operation.put_object sunset (sunset_chunk ∷ []))

-- A move that changes the case of the prefix alone.
move_prefix-cases_example :
    ((e : DbError) × (Prefixes.move_prefix photos
          (codes "sea/")
          (codes "Sea/")
          true
          noon
          (calm one_object)
        ≡ (err e, calm one_object)))
    ⊎ ((created : Bool) × ((Prefixes.move_prefix photos
            (codes "sea/")
            (codes "Sea/")
            true
            noon
            (calm one_object)).0
          ≡ ok created)
        × ((get_object photos sunset_key
              (Prefixes.move_prefix photos
                (codes "sea/")
                (codes "Sea/")
                true
                noon
                (calm one_object)).1).0
            ≡ err not_found))
unfolding has_prefix lower_byte
move_prefix-cases_example =
    move_prefix-cases photos (codes "sea/") (codes "Sea/") true noon one_object sunset_key refl
