-- ===== src/Dav/Directories/Steady.antt =====
-- Opening a file changes no table; what is written comes with its Close.
use tg_files.Common.{ℕ, zero, suc, List, [], ◌∷◌, ◌≡◌, length, Text, Bool, Option, none, some}
use tg_files.Metadata.Types.{Object, Db}
use tg_files.Metadata.Sql.Preserves.{
  Preserves, Preserves-bind, Preserves-pure, Preserves-raise, preserve_rules,
}
use tg_files.Metadata.Buckets.{list_buckets}
use tg_files.Metadata.Prefixes.{list_all_objects, list_pages, gather_page}
use tg_files.Metadata.Sql.{Sql, engine}
use tg_files.Metadata.Objects
use tg_files.Dav.Paths.{ParsedPath, root, at}
use tg_files.Dav.Steps.Atomic.{IsSteady, IsSteady-reading, steady_rules}
use tg_files.Dav.FileSystem.Atomic.{
  fs_rules, head_object-IsSteady, stat_collection-IsSteady, of_result-IsSteady,
}
use tg_files.Dav.Directories.{
  collection_children, open_collection, open_root_collection, opened_collection, open_writer,
  open_found, open_reader, open_at, open_file,
}

gather_page-Preserves :
    (all objects : List Object) (continue : Text → List Object → Sql (List Object)) (db : Db)
    → ((key : Text) (more : List Object) → Preserves (λ after. after ≡ db) (continue key more))
    → Preserves (λ after. after ≡ db) (gather_page all continue objects)
unfolding gather_page
gather_page-Preserves all [] continue db h = Preserves-pure all
gather_page-Preserves all (object ∷ objects) continue db h = h _ _

list_pages-Preserves :
    (fuel : ℕ) (bucket prefix after_key : Text) (all : List Object) (db : Db)
    → Preserves (λ after. after ≡ db) (list_pages fuel bucket prefix after_key all)
unfolding list_pages Objects.list_objects
list_pages-Preserves zero bucket prefix after_key all db = Preserves-raise engine
list_pages-Preserves (suc fuel) bucket prefix after_key all db =
    Preserves-bind _ _ (search preserve_rules) (λ objects.
      gather_page-Preserves all objects (list_pages fuel bucket prefix) db
        (λ key more. list_pages-Preserves fuel bucket prefix key more db))

list_all_objects-IsSteady : (bucket prefix : Text) → IsSteady (list_all_objects bucket prefix)
unfolding list_all_objects
list_all_objects-IsSteady bucket prefix = IsSteady-reading (list_all_objects bucket prefix) (λ db.
    record {
      after =
          λ s. (list_pages-Preserves (suc (length s.db.objects)) bucket prefix [] [] db).after s;
    })

list_buckets-IsSteady : IsSteady list_buckets
unfolding list_buckets
list_buckets-IsSteady = IsSteady-reading list_buckets (λ db. search preserve_rules)

open_root_collection-IsSteady : IsSteady open_root_collection
unfolding open_root_collection
open_root_collection-IsSteady = search (steady_rules, list_buckets-IsSteady)

opened_collection-IsSteady : (bucket prefix : Text) → IsSteady (opened_collection bucket prefix)
unfolding opened_collection open_collection collection_children
opened_collection-IsSteady bucket prefix =
    search (steady_rules, stat_collection-IsSteady, list_all_objects-IsSteady) depth 9

open_found-IsSteady : (bucket key : Text) (o : Option Object) → IsSteady (open_found bucket key o)
unfolding open_found
open_found-IsSteady bucket key none = search (fs_rules, opened_collection-IsSteady)
open_found-IsSteady bucket key (some o) = search steady_rules

open_writer-IsSteady : (bucket key : Text) → IsSteady (open_writer bucket key)
unfolding open_writer
open_writer-IsSteady bucket key = search fs_rules

open_reader-IsSteady : (bucket key : Text) → IsSteady (open_reader bucket key)
unfolding open_reader
open_reader-IsSteady bucket key = search (steady_rules, head_object-IsSteady, open_found-IsSteady)

open_at-IsSteady :
    (name : Text) (write_mode : Bool) (parsed : ParsedPath)
    → IsSteady (open_at name write_mode parsed)
unfolding open_at
open_at-IsSteady name write_mode root = search (steady_rules, open_root_collection-IsSteady)
open_at-IsSteady name write_mode (at bucket key) =
    search (fs_rules, opened_collection-IsSteady, open_writer-IsSteady, open_reader-IsSteady) depth
      9

pub open_file-IsSteady : (name : Text) (write_mode : Bool) → IsSteady (open_file name write_mode)
unfolding open_file
open_file-IsSteady name write_mode = search (steady_rules, of_result-IsSteady, open_at-IsSteady)
