-- ===== src/Dav/Tests.antt =====
-- The WebDAV server at concrete tables.
use tg_files.Common.{
  inr, Text, codes, ◌≡◌, refl, [], ◌∷◌, ok, err, true, false, ℕ, text_eq, text_lt, List, none, some,
  map, arith,
}
use tg_files.Golang.Int64.{pos}
use tg_files.Golang.Strings.{lower_byte, has_prefix}
use tg_files.Metadata.Types.{Db, ObjectRow, Time, Object}
use tg_files.Metadata.Sql.{calm, Session, DbError}
use tg_files.Metadata.Sql
use tg_files.Metadata.Table.{find}
use tg_files.Metadata.Statements.{same_object}
use tg_files.Metadata.Like.{like, escape_like}
use tg_files.Metadata.Objects.{get_object}
use tg_files.Metadata.Table.{Unique, has_key}
use tg_files.Metadata.Statements.{object_key}
use tg_files.Metadata.Sql.Reads.{Reads}
use tg_files.Metadata.Prefixes.{list_all_objects}
use tg_files.Store.Listing.Pages.{behind}
use tg_files.Dav.Directories.Whole.{below, list_all_objects-Reads}
use tg_files.Dav.Steps
use tg_files.Dav.Paths.{DavError, at, parse_path, parent_prefix}
use tg_files.Dav.Paths.Proper.{IsInside, parse_path-IsInside}
use tg_files.Dav.FileSystem.{DavFileInfo, remove_all, mkdir, stat}
use tg_files.Dav.Directories.{open_file, read_batches, children_of}
use tg_files.Dav.Directories.Reading.{read_batches-children}
use tg_files.Dav.FileSystem.Removing.{covers, remove_all-kept}
use tg_files.Dav.CopyMove.{handle_copy_move}
use tg_files.Dav.Serving.{Handler, DavRequest, serve_http, below_prefix}
use tg_files.Dav.Serving.Guarded.{changed, serve_http-guarded}
use tg_files.Dav.CopyMove.Keeping.{touches, handle_copy_move-kept}
use tg_files.Dav.CopyMove.Atomic.{requests-IsCautious}

abbrev row : Text → ObjectRow
row key = record {
  bucket = codes "b";
  key = key;
  size = pos 1;
  content_type = [];
  etag = codes "e";
  sha256 = [];
  last_modified = pos 10;
  chunk_count = pos 0;
  telegram_type = codes "document";
  upload_strategy = codes "document";
}

abbrev tree : Db
tree = record {
  buckets = record { name = codes "b"; chat_id = codes "1"; created_at = pos 5; enabled = 1 } ∷ [];
  objects = row (codes "x/y") ∷ row (codes "z") ∷ [];
  object_chunks = [];
  direct_links = [];
}

abbrev noon : Time
noon = record { seconds = pos 43200; nanos = 5 }

abbrev object : Text → Object
object key = record {
  bucket = codes "b";
  key = key;
  size = pos 1;
  content_type = [];
  etag = codes "e";
  sha256 = [];
  last_modified = noon;
  chunk_count = pos 0;
  telegram_type = codes "document";
  upload_strategy = codes "document";
}

keeps_slash : parse_path (codes "/b/./x/../y/") ≡ ok (at (codes "b") (codes "y/"))
unfolding parse_path
keeps_slash = refl

parse_path-IsInside_example : IsInside (at (codes "b") (codes "y/"))
parse_path-IsInside_example =
    parse_path-IsInside (codes "/b/./x/../y/") (at (codes "b") (codes "y/")) keeps_slash

has_parent : parent_prefix (codes "x/y/z/") ≡ codes "x/y/"
unfolding parent_prefix
has_parent = refl

removes_below : (remove_all (codes "/b/x") (calm tree)).1.db.objects ≡ row (codes "z") ∷ []
unfolding remove_all Steps.◌>>=◌ parse_path Steps.telling Sql.◌>>=◌ find same_object like
    escape_like lower_byte text_lt Sql.transaction
removes_below = refl

names_x : parse_path (codes "/b/x") ≡ ok (at (codes "b") (codes "x"))
unfolding parse_path
names_x = refl

names_z : parse_path (codes "/b/z") ≡ ok (at (codes "b") (codes "z"))
unfolding parse_path
names_z = refl

names_w : parse_path (codes "/b/w") ≡ ok (at (codes "b") (codes "w"))
unfolding parse_path
names_w = refl

covers_y : covers (at (codes "b") (codes "x")) (codes "b") (codes "X/y") ≡ true
unfolding covers text_eq has_prefix lower_byte
covers_y = refl

leaves_z : covers (at (codes "b") (codes "x")) (codes "b") (codes "z") ≡ false
unfolding covers text_eq has_prefix lower_byte
leaves_z = refl

remove_all-kept_example :
    (get_object (codes "b") (codes "z") (calm (remove_all (codes "/b/x") (calm tree)).1.db)).0
    ≡ (get_object (codes "b") (codes "z") (calm tree)).0
remove_all-kept_example =
    remove_all-kept (codes "/b/x") (calm tree) (at (codes "b") (codes "x")) (codes "b") (codes "z")
      names_x leaves_z

moves_into_itself :
    (handle_copy_move true [] (codes "/b/x/") (codes "/b/x/w/") noon (calm tree)).0 ≡ err 403
unfolding handle_copy_move Steps.◌>>=◌ text_eq parse_path Steps.telling Sql.◌>>=◌ find same_object
moves_into_itself = refl

renames : (handle_copy_move true [] (codes "/b/z") (codes "/b/w") noon (calm tree)).0 ≡ ok 201
unfolding handle_copy_move Steps.◌>>=◌ text_eq parse_path Steps.telling Sql.◌>>=◌ find same_object
    like escape_like lower_byte Sql.transaction
renames = refl

requests-IsCautious_example :
    ((status : ℕ)
      → (handle_copy_move true [] (codes "/b/x/") (codes "/b/x/w/") noon (calm tree)).0 ≡ err status
      → (handle_copy_move true [] (codes "/b/x/") (codes "/b/x/w/") noon (calm tree)).1.db ≡ tree)
    × ((e : DavError)
        → (mkdir (codes "/b/z/") noon (calm tree)).0 ≡ err e
        → (mkdir (codes "/b/z/") noon (calm tree)).1.db ≡ tree)
    × ((e : DavError)
        → (remove_all (codes "/b/z/") (calm tree)).0 ≡ err e
        → (remove_all (codes "/b/z/") (calm tree)).1.db ≡ tree)
    × ((stat (codes "/b/z/") (calm tree)).1.db ≡ tree)
    × ((open_file (codes "/b/z/") true (calm tree)).1.db ≡ tree)
requests-IsCautious_example =
    requests-IsCautious (calm tree) (codes "/b/z/") (codes "/b/x/") (codes "/b/x/w/") [] true true
      noon

leaves_x :
    touches true (at (codes "b") (codes "z")) (at (codes "b") (codes "w")) (codes "b") (codes "x/y")
    ≡ false
unfolding touches covers text_eq has_prefix lower_byte
leaves_x = refl

handle_copy_move-kept_example :
    (get_object
      (codes "b")
      (codes "x/y")
      (calm (handle_copy_move true [] (codes "/b/z") (codes "/b/w") noon (calm tree)).1.db)).0
    ≡ (get_object (codes "b") (codes "x/y") (calm tree)).0
handle_copy_move-kept_example =
    handle_copy_move-kept true [] (codes "/b/z") (codes "/b/w") noon (calm tree)
      (at (codes "b") (codes "z")) (at (codes "b") (codes "w")) (codes "b") (codes "x/y") names_z
      names_w leaves_x

abbrev entry : Text → DavFileInfo
entry name = record {
  name = name;
  size = pos 1;
  mod_time = noon;
  is_dir = false;
  content_type = [];
  etag = [];
}

abbrev three : List DavFileInfo
three = entry (codes "elm") ∷ entry (codes "oak") ∷ entry (codes "yew") ∷ []

read_batches-children_example :
    read_batches 4 (pos 2) (record { is_dir = true; children = three; read_pos = 0 }) ≡ some three
read_batches-children_example =
    read_batches-children three 2 4 (omega arith) (omega arith) (omega arith)

-- One child for the directory x, and one for the object z.
two_children :
    map
      (λ (i : DavFileInfo). i.name)
      (children_of [] [] (object (codes "x/y") ∷ object (codes "x/w") ∷ object (codes "z") ∷ []))
    ≡ codes "x/" ∷ codes "z" ∷ []
unfolding children_of text_eq
two_children = refl

abbrev handler : Handler
handler = record {
  prefix = codes "/dav/";
  creds = (codes "ann", codes "pw") ∷ [];
  forward = λ r. Steps.pure 207;
}

abbrev request : DavRequest
request = record {
  method = codes "GET";
  url_path = codes "/dav/c/x";
  host = codes "h";
  basic_auth = some (codes "ann", codes "pw");
  depth = [];
  destination = [];
  destination_url = none;
  overwrite = [];
}

unknown_bucket : (serve_http handler request noon (calm tree)).0 ≡ err 404
unfolding serve_http Steps.◌>>=◌ parse_path Steps.telling Sql.◌>>=◌ find
unknown_bucket = refl

passed_on :
    (serve_http handler (record request { url_path = codes "/dav/b/x" }) noon (calm tree)).0
    ≡ ok 207
unfolding serve_http Steps.◌>>=◌ parse_path Steps.telling Sql.◌>>=◌ find
passed_on = refl

serve_http-guarded_example :
    serve_http handler request noon (calm tree)
    ≡ serve_http (changed handler (λ r. Steps.pure 200)) request noon (calm tree)
unfolding parse_path below_prefix find text_eq
serve_http-guarded_example =
    serve_http-guarded handler request noon (λ r. Steps.pure 200) (calm tree)
      (inr (codes "c", codes "x", refl, refl))

-- A COPY to a collection that MKCOL made is refused, although the header says to overwrite.
refuses_overwrite :
    (handle_copy_move false
      (codes "T")
      (codes "/b/x/")
      (codes "/b/y/")
      noon
      (calm (record tree { objects = row (codes "x/") ∷ row (codes "y/") ∷ [] }))).0
    ≡ err 412
unfolding handle_copy_move Steps.◌>>=◌ text_eq parse_path Steps.telling Sql.◌>>=◌ find same_object
refuses_overwrite = refl

tree-Unique : Unique object_key same_object tree.objects
unfolding has_key same_object text_eq
tree-Unique = (refl, (refl, tt))

list_all_objects-Reads_example :
    Reads
      (calm tree)
      (behind (below (codes "b") (codes "x/")) [] tree)
      (list_all_objects (codes "b") (codes "x/") (calm tree))
list_all_objects-Reads_example =
    list_all_objects-Reads (codes "b") (codes "x/") (calm tree) tree-Unique
