-- ===== src/Dav/FileSystem/Atomic.antt =====
-- The methods of FileSystem: the ones that read change nothing, and a failure changes nothing.
use tg_files.Common.{Text, List, [], ◌∷◌, Option, none, some, Result, ok, err}
use tg_files.Metadata.Sql.Preserves.{Preserves, preserve_rules}
use tg_files.Metadata.Types.{Bucket, Object, Time, Db, BucketRow, ObjectRow, ListQuery}
use tg_files.Metadata.Operations.{Operation, run}
use tg_files.Metadata.Operations.Atomic.{run-IsAtomic}
use tg_files.Metadata.Objects.{head_object, put_object, delete_object, scan_object}
use tg_files.Metadata.Objects
use tg_files.Metadata.Buckets.{get_bucket, delete_bucket, scan_bucket}
use tg_files.Metadata.Prefixes.{count_objects, delete_prefix}
use tg_files.Dav.Paths.{DavError, ParsedPath, root, at}
use tg_files.Dav.Steps.Atomic.{
  IsSteady, IsCautious, IsSteady-reading, IsCautious-store, steady_rules, cautious_rules,
}
use tg_files.Dav.FileSystem.{
  present, known_bucket, enabled_bucket, require_enabled_bucket, implied_info, collection_info,
  stat_collection, check_collection_exists, collection_exists, has_object, require_parent,
  make_collection, mkdir_at, of_result, mkdir, remove_collection, remove_object_or_collection,
  remove_all_at, remove_all, stat_found, stat_at, stat, remove_bucket, remove_key,
}

pub present-IsSteady : {A : Type 0} (e : DavError) (o : Option A) → IsSteady (present e o)
unfolding present
present-IsSteady e none = search steady_rules
present-IsSteady e (some a) = search steady_rules

scan_bucket-Preserves : (P : Db → Type 0) (row : Option BucketRow) → Preserves P (scan_bucket row)
unfolding scan_bucket
scan_bucket-Preserves P none = search preserve_rules
scan_bucket-Preserves P (some row) = search preserve_rules

scan_object-Preserves : (P : Db → Type 0) (row : Option ObjectRow) → Preserves P (scan_object row)
unfolding scan_object
scan_object-Preserves P none = search preserve_rules
scan_object-Preserves P (some row) = search preserve_rules

get_bucket-IsSteady : (bucket : Text) → IsSteady (get_bucket bucket)
unfolding get_bucket
get_bucket-IsSteady bucket =
    IsSteady-reading (get_bucket bucket) (λ db. search (preserve_rules, scan_bucket-Preserves))

pub head_object-IsSteady : (bucket key : Text) → IsSteady (head_object bucket key)
unfolding head_object
head_object-IsSteady bucket key =
    IsSteady-reading (head_object bucket key) (λ db. search (preserve_rules, scan_object-Preserves))

list_objects-IsSteady : (q : ListQuery) → IsSteady (Objects.list_objects q)
unfolding Objects.list_objects
list_objects-IsSteady q = IsSteady-reading (Objects.list_objects q) (λ db. search preserve_rules)

pub count_objects-IsSteady : (bucket prefix : Text) → IsSteady (count_objects bucket prefix)
unfolding count_objects
count_objects-IsSteady bucket prefix =
    IsSteady-reading (count_objects bucket prefix) (λ db. search preserve_rules)

pub known_bucket-IsSteady : (bucket : Text) → IsSteady (known_bucket bucket)
unfolding known_bucket
known_bucket-IsSteady bucket = search (steady_rules, present-IsSteady, get_bucket-IsSteady)

enabled_bucket-IsSteady : (bucket : Text) → IsSteady (enabled_bucket bucket)
unfolding enabled_bucket
enabled_bucket-IsSteady bucket = search (steady_rules, known_bucket-IsSteady)

pub require_enabled_bucket-IsSteady : (bucket : Text) → IsSteady (require_enabled_bucket bucket)
unfolding require_enabled_bucket
require_enabled_bucket-IsSteady bucket = search (steady_rules, enabled_bucket-IsSteady)

implied_info-IsSteady :
    (prefix : Text) (objects : List Object) → IsSteady (implied_info prefix objects)
unfolding implied_info
implied_info-IsSteady prefix [] = search steady_rules
implied_info-IsSteady prefix (o ∷ objects) = search steady_rules

collection_info-IsSteady :
    (bucket prefix : Text) (o : Option Object) → IsSteady (collection_info bucket prefix o)
unfolding collection_info
collection_info-IsSteady bucket prefix none =
    search (steady_rules, implied_info-IsSteady, list_objects-IsSteady)
collection_info-IsSteady bucket prefix (some o) = search steady_rules

pub stat_collection-IsSteady : (bucket prefix : Text) → IsSteady (stat_collection bucket prefix)
unfolding stat_collection
stat_collection-IsSteady bucket prefix =
    search (steady_rules, enabled_bucket-IsSteady, collection_info-IsSteady, head_object-IsSteady)

pub check_collection_exists-IsSteady :
    (bucket prefix : Text) → IsSteady (check_collection_exists bucket prefix)
unfolding check_collection_exists
check_collection_exists-IsSteady bucket prefix = search (steady_rules, stat_collection-IsSteady)

pub collection_exists-IsSteady : (bucket prefix : Text) → IsSteady (collection_exists bucket prefix)
unfolding collection_exists
collection_exists-IsSteady bucket prefix = record {
  at = λ s. (check_collection_exists-IsSteady bucket prefix).at s;
}

pub has_object-IsSteady : (bucket key : Text) → IsSteady (has_object bucket key)
unfolding has_object
has_object-IsSteady bucket key = search (steady_rules, head_object-IsSteady)

pub require_parent-IsSteady : (bucket parent : Text) → IsSteady (require_parent bucket parent)
unfolding require_parent
require_parent-IsSteady bucket parent =
    search (steady_rules, present-IsSteady, stat_collection-IsSteady)

pub of_result-IsSteady : {E A : Type 0} (r : Result E A) → IsSteady (of_result r)
unfolding of_result
of_result-IsSteady (ok a) = search steady_rules
of_result-IsSteady (err e) = search steady_rules

pub ruleset fs_rules = (
  steady_rules, cautious_rules, known_bucket-IsSteady, require_enabled_bucket-IsSteady,
  check_collection_exists-IsSteady, collection_exists-IsSteady, has_object-IsSteady,
  require_parent-IsSteady, of_result-IsSteady, count_objects-IsSteady,
)

stat_found-IsSteady : (bucket key : Text) (o : Option Object) → IsSteady (stat_found bucket key o)
unfolding stat_found
stat_found-IsSteady bucket key none =
    search (steady_rules, collection_exists-IsSteady, stat_collection-IsSteady)
stat_found-IsSteady bucket key (some o) = search steady_rules

stat_at-IsSteady : (parsed : ParsedPath) → IsSteady (stat_at parsed)
unfolding stat_at
stat_at-IsSteady root = search steady_rules
stat_at-IsSteady (at bucket key) =
    search
      (
        steady_rules, require_enabled_bucket-IsSteady, stat_collection-IsSteady,
        head_object-IsSteady, stat_found-IsSteady,
      )
      depth 9

pub stat-IsSteady : (name : Text) → IsSteady (stat name)
unfolding stat
stat-IsSteady name = search (steady_rules, of_result-IsSteady, stat_at-IsSteady)

put_object-IsCautious : (o : Object) → IsCautious (put_object o [])
unfolding put_object run
put_object-IsCautious o =
    IsCautious-store (put_object o []) (run-IsAtomic (Operation.put_object o []))

delete_object-IsCautious : (bucket key : Text) → IsCautious (delete_object bucket key)
unfolding delete_object run
delete_object-IsCautious bucket key =
    IsCautious-store (delete_object bucket key) (run-IsAtomic (Operation.delete_object bucket key))

delete_prefix-IsCautious : (bucket prefix : Text) → IsCautious (delete_prefix bucket prefix)
unfolding delete_prefix run
delete_prefix-IsCautious bucket prefix =
    IsCautious-store (delete_prefix bucket prefix)
      (run-IsAtomic (Operation.delete_prefix bucket prefix))

delete_bucket-IsCautious : (bucket : Text) → IsCautious (delete_bucket bucket)
unfolding delete_bucket run
delete_bucket-IsCautious bucket =
    IsCautious-store (delete_bucket bucket) (run-IsAtomic (Operation.delete_bucket bucket))

mkdir_at-IsCautious : (now : Time) (parsed : ParsedPath) → IsCautious (mkdir_at now parsed)
unfolding mkdir_at make_collection
mkdir_at-IsCautious now root = search fs_rules
mkdir_at-IsCautious now (at bucket key) = search (fs_rules, put_object-IsCautious) depth 9

pub mkdir-IsCautious : (name : Text) (now : Time) → IsCautious (mkdir name now)
unfolding mkdir
mkdir-IsCautious name now = search (fs_rules, mkdir_at-IsCautious)

remove_collection-IsCautious : (bucket prefix : Text) → IsCautious (remove_collection bucket prefix)
unfolding remove_collection
remove_collection-IsCautious bucket prefix = search (fs_rules, delete_prefix-IsCautious)

remove_object_or_collection-IsCautious :
    (bucket key : Text) → IsCautious (remove_object_or_collection bucket key)
unfolding remove_object_or_collection
remove_object_or_collection-IsCautious bucket key =
    search (fs_rules, remove_collection-IsCautious, delete_object-IsCautious) depth 9

remove_bucket-IsCautious : (bucket : Text) (r : Bucket) → IsCautious (remove_bucket bucket r)
unfolding remove_bucket
remove_bucket-IsCautious bucket r = search (fs_rules, delete_bucket-IsCautious)

remove_key-IsCautious : (bucket key : Text) (r : Bucket) → IsCautious (remove_key bucket key r)
unfolding remove_key
remove_key-IsCautious bucket key r =
    search (fs_rules, remove_collection-IsCautious, remove_object_or_collection-IsCautious)

remove_all_at-IsCautious : (parsed : ParsedPath) → IsCautious (remove_all_at parsed)
unfolding remove_all_at
remove_all_at-IsCautious root = search fs_rules
remove_all_at-IsCautious (at bucket key) =
    search (fs_rules, remove_bucket-IsCautious, remove_key-IsCautious)

pub remove_all-IsCautious : (name : Text) → IsCautious (remove_all name)
unfolding remove_all
remove_all-IsCautious name = search (fs_rules, remove_all_at-IsCautious)
