-- ===== src/Dav/CopyMove/Atomic.antt =====
-- A COPY or MOVE that is answered by an error has changed nothing.
use tg_files.Common.{Text, Bool, ◌≡◌, err, ℕ}
use tg_files.Metadata.Types.{Time}
use tg_files.Metadata.Sql.{Session, Sql}
use tg_files.Metadata.Sql.Atomic.{IsAtomic, atomic_rules}
use tg_files.Metadata.Objects.{copy_object, move_object}
use tg_files.Metadata.Prefixes.{copy_prefix, move_prefix}
use tg_files.Dav.Paths.{DavError, ParsedPath, root, at}
use tg_files.Dav.Steps.Atomic.{
  IsSteady, IsCautious, IsCautious-store, IsCautious-bind_pure, IsCautious-telling, steady_rules,
  cautious_rules,
}
use tg_files.Dav.FileSystem.{mkdir, remove_all, stat}
use tg_files.Dav.Directories.{open_file}
use tg_files.Dav.Directories.Steady.{open_file-IsSteady}
use tg_files.Dav.FileSystem.Atomic.{
  check_collection_exists-IsSteady, has_object-IsSteady, count_objects-IsSteady, of_result-IsSteady,
  mkdir-IsCautious, remove_all-IsCautious, stat-IsSteady,
}
use tg_files.Dav.CopyMove.{
  has_collection, destination_kind_conflict, copy_move_error, answered, source_is_collection,
  copy_move_collection, copy_move_object, write_collection, write_object, copy_move_at,
  handle_copy_move, created_status,
}

has_collection-IsSteady : (bucket key : Text) → IsSteady (has_collection bucket key)
unfolding has_collection
has_collection-IsSteady bucket key = search (steady_rules, check_collection_exists-IsSteady)

pub destination_kind_conflict-IsSteady :
    (bucket key : Text) (is_collection : Bool)
    → IsSteady (destination_kind_conflict bucket key is_collection)
unfolding destination_kind_conflict
destination_kind_conflict-IsSteady bucket key is_collection =
    search (steady_rules, has_collection-IsSteady, has_object-IsSteady)

pub source_is_collection-IsSteady : (bucket key : Text) → IsSteady (source_is_collection bucket key)
unfolding source_is_collection
source_is_collection-IsSteady bucket key =
    search (steady_rules, has_collection-IsSteady, has_object-IsSteady)

answered-IsCautious : (m : Sql Bool) → IsAtomic m → IsCautious (answered m)
unfolding answered
answered-IsCautious m h =
    IsCautious-bind_pure _ created_status
      (IsCautious-telling copy_move_error m (IsCautious-store m h))

module _ (bucket src dst : Text) (overwrite : Bool) (now : Time) where
  copy_object-IsAtomic : IsAtomic (copy_object bucket src dst overwrite now)
  unfolding copy_object
  copy_object-IsAtomic = search atomic_rules

  move_object-IsAtomic : IsAtomic (move_object bucket src dst overwrite now)
  unfolding move_object
  move_object-IsAtomic = search atomic_rules

  copy_prefix-IsAtomic : IsAtomic (copy_prefix bucket src dst overwrite now)
  unfolding copy_prefix
  copy_prefix-IsAtomic = search atomic_rules

  move_prefix-IsAtomic : IsAtomic (move_prefix bucket src dst overwrite now)
  unfolding move_prefix
  move_prefix-IsAtomic = search atomic_rules

pub ruleset read_rules = (
  steady_rules, count_objects-IsSteady, destination_kind_conflict-IsSteady,
  source_is_collection-IsSteady, of_result-IsSteady,
)

ruleset copy_move_rules = (
  cautious_rules, read_rules, answered-IsCautious, copy_object-IsAtomic, move_object-IsAtomic,
  copy_prefix-IsAtomic, move_prefix-IsAtomic,
)

module _ (move overwrite : Bool) (now : Time) (bucket src dst : Text) where
  write_collection-IsCautious : IsCautious (write_collection move overwrite now bucket src dst)
  unfolding write_collection
  write_collection-IsCautious = search copy_move_rules

  write_object-IsCautious : IsCautious (write_object move overwrite now bucket src dst)
  unfolding write_object
  write_object-IsCautious = search copy_move_rules

copy_move_collection-IsCautious :
    (move overwrite : Bool) (now : Time) (bucket src dst : Text)
    → IsCautious (copy_move_collection move overwrite now bucket src dst)
unfolding copy_move_collection
copy_move_collection-IsCautious move overwrite now bucket src dst =
    search (copy_move_rules, write_collection-IsCautious) depth 9

copy_move_object-IsCautious :
    (move overwrite : Bool) (now : Time) (bucket src dst : Text)
    → IsCautious (copy_move_object move overwrite now bucket src dst)
unfolding copy_move_object
copy_move_object-IsCautious move overwrite now bucket src dst =
    search (copy_move_rules, write_object-IsCautious) depth 9

copy_move_at-IsCautious :
    (move overwrite : Bool) (now : Time) (src dst : ParsedPath)
    → IsCautious (copy_move_at move overwrite now src dst)
unfolding copy_move_at
copy_move_at-IsCautious move overwrite now root dst = search cautious_rules
copy_move_at-IsCautious move overwrite now (at bucket key) root = search cautious_rules
copy_move_at-IsCautious move overwrite now (at bucket key) (at dst_bucket dst_key) =
    search (copy_move_rules, copy_move_collection-IsCautious, copy_move_object-IsCautious)

handle_copy_move-IsCautious :
    (move : Bool) (header src dst : Text) (now : Time)
    → IsCautious (handle_copy_move move header src dst now)
unfolding handle_copy_move
handle_copy_move-IsCautious move header src dst now =
    search (copy_move_rules, copy_move_at-IsCautious)

-- A COPY or a MOVE that is answered by an error, and a MKCOL or a DELETE whose method of the file
-- system fails, has left all four tables as they were, at whichever statement the engine refused, and
-- so has Stat or OpenFile of any path, for reading or for writing, whether it fails or not.
pub requests-IsCautious :
    (s : Session) (name src dst header : Text) (move write_mode : Bool) (now : Time)
    → ((status : ℕ)
        → (handle_copy_move move header src dst now s).0 ≡ err status
        → (handle_copy_move move header src dst now s).1.db ≡ s.db)
      × ((e : DavError) → (mkdir name now s).0 ≡ err e → (mkdir name now s).1.db ≡ s.db)
      × ((e : DavError) → (remove_all name s).0 ≡ err e → (remove_all name s).1.db ≡ s.db)
      × ((stat name s).1.db ≡ s.db)
      × ((open_file name write_mode s).1.db ≡ s.db)
requests-IsCautious s name src dst header move write_mode now = (
  (handle_copy_move-IsCautious move header src dst now).at s,
  (mkdir-IsCautious name now).at s,
  (remove_all-IsCautious name).at s,
  (stat-IsSteady name).at s,
  (open_file-IsSteady name write_mode).at s,
)
