-- ===== src/Dav/FileSystem/Removing.antt =====
-- RemoveAll leaves alone what its path does not cover.
use tg_files.Common.{
  ◌∷◌, map, ◌==◌, if◌then◌else◌, ◌∙◌, Text, Bool, false, ◌&&◌, ◌||◌, List, [], ◌≡◌, refl, sym,
  subst, arith, Result, ok, text_eq, [], ◌∷◌,
}
use tg_files.Metadata.Types.{Bucket, Db, Object, Chunk}
use tg_files.Golang.Strings.{ends_with_byte, has_prefix, lower_byte}
use tg_files.Metadata.Sql.{Session, DbError, calm}
use tg_files.Metadata.Sql.Preserves.{Preserves}
use tg_files.Metadata.Objects.{get_object, delete_object}
use tg_files.Metadata.Objects.RoundTrip.{view, get_object-eq-view}
use tg_files.Metadata.Prefixes.{delete_prefix}
use tg_files.Metadata.Prefixes.Deletes.{is_below}
use tg_files.Metadata.Buckets.{delete_bucket}
use tg_files.Metadata.Operations.Shown.{
  Shows, delete_object-Shows, delete_prefix-Shows, delete_bucket-Shows,
}
use tg_files.Dav.Paths.{ParsedPath, root, at, parse_path, canonical_collection_key}
use tg_files.Dav.Steps.{◌>>=◌}
use tg_files.Dav.Steps.Keeping.{Keeps, Keeps-bind, Keeps-cases, Keeps-raise, keep_rules}
use tg_files.Dav.FileSystem.{
  remove_collection, remove_object_or_collection, remove_all_at, remove_all, remove_bucket,
  remove_key, of_result, forbidden,
}
use tg_files.Dav.FileSystem.Atomic.{fs_rules, known_bucket-IsSteady}

-- The key of a collection: its name with one slash at the end, which the name may have already.
abbrev pub with_end_slash : Text → Text
with_end_slash [] = b'/' ∷ []
with_end_slash (c ∷ []) = if c == b'/' then c ∷ [] else c ∷ b'/' ∷ []
with_end_slash (c ∷ d ∷ s) = c ∷ with_end_slash (d ∷ s)

canonical_collection_key_lem :
    (key : Text) → text_eq key [] ≡ false → canonical_collection_key key ≡ with_end_slash key
unfolding canonical_collection_key ends_with_byte text_eq
canonical_collection_key_lem [] h = cc
canonical_collection_key_lem (c ∷ []) h = ground arith
canonical_collection_key_lem (c ∷ d ∷ s) h =
    ground (arith, canonical_collection_key_lem (d ∷ s) refl)

-- What a path stands for: the whole bucket where it names no key, and else the object of that key,
-- and the objects whose keys begin, up to the case of ASCII letters, with the key and a slash, or with
-- the key where it ends with a slash.
unfoldable pub covers : ParsedPath → Text → Text → Bool
covers root b k = false
covers (at bucket []) b k = text_eq b bucket
covers (at bucket (c ∷ key)) b k =
    text_eq b bucket
    && (text_eq k (c ∷ key)
        || has_prefix (map lower_byte k) (map lower_byte (with_end_slash (c ∷ key))))

-- The same by the code's own words.
pub covers_parts :
    (bucket key b k : Text)
    → covers (at bucket key) b k ≡ (
        text_eq b bucket
        && (text_eq key [] || text_eq k key || is_below (canonical_collection_key key) k))
unfolding covers text_eq
covers_parts bucket [] b k = ground arith
covers_parts bucket (c ∷ key) b k = rw (canonical_collection_key_lem (c ∷ key) refl) refl

-- What the deletes of the store keep, RemoveAll keeps.
module _ (P : Db → Type 0) (bucket key : Text) where
  remove_collection-Keeps :
      (prefix : Text)
      → Preserves P (delete_prefix bucket prefix)
      → Keeps P (remove_collection bucket prefix)
  unfolding remove_collection
  remove_collection-Keeps prefix h = search (keep_rules, fs_rules) depth 9

  remove_object_or_collection-Keeps :
      Preserves P (delete_object bucket key)
      → Preserves P (delete_prefix bucket (canonical_collection_key key))
      → Keeps P (remove_object_or_collection bucket key)
  unfolding remove_object_or_collection
  remove_object_or_collection-Keeps h hs =
      search (keep_rules, fs_rules, remove_collection-Keeps) depth 9

  remove_bucket-Keeps :
      (r : Bucket) → Preserves P (delete_bucket bucket) → Keeps P (remove_bucket bucket r)
  unfolding remove_bucket
  remove_bucket-Keeps r h = search keep_rules

  remove_key-Keeps :
      (r : Bucket)
      → Preserves P (delete_object bucket key)
      → Preserves P (delete_prefix bucket (canonical_collection_key key))
      → Keeps P (remove_key bucket key r)
  unfolding remove_key
  remove_key-Keeps r h hs =
      search (keep_rules, remove_collection-Keeps, remove_object_or_collection-Keeps)

module _ (b k : Text) (v : Result DbError (Object × List Chunk)) where
  remove_all_at-Shows :
      (parsed : ParsedPath) → covers parsed b k ≡ false → Keeps (Shows b k v) (remove_all_at parsed)
  unfolding remove_all_at
  remove_all_at-Shows root other = Keeps-raise forbidden
  remove_all_at-Shows (at bucket key) other =
      let apart : text_eq b bucket
            && (text_eq key [] || text_eq k key || is_below (canonical_collection_key key) k)
          ≡ false =
        sym (covers_parts bucket key b k) ∙ other in
      Keeps-bind _ _ (known_bucket-IsSteady bucket) (λ r.
        Keeps-cases (text_eq key []) (remove_bucket bucket r) (remove_key bucket key r)
          (λ whole.
            remove_bucket-Keeps (Shows b k v) bucket key r
              (delete_bucket-Shows b k v bucket (ground arith)))
          (λ part.
            remove_key-Keeps (Shows b k v) bucket key r
              (delete_object-Shows b k v bucket key (ground arith))
              (delete_prefix-Shows b k v bucket (canonical_collection_key key) (ground arith))))

-- RemoveAll, whether it returns or fails and whichever statements the engine refuses, changes nothing
-- of what GetObject shows of an object that its path does not cover: the path covers the objects of a
-- bucket it names without a key, and otherwise the object of its key, and the objects of that bucket
-- whose keys begin with the key and a slash, or with the key where it ends with a slash, up to the
-- case of ASCII letters.
pub remove_all-kept :
    (name : Text) (s : Session) (parsed : ParsedPath) (b k : Text)
    → parse_path name ≡ ok parsed
    → covers parsed b k ≡ false
    → (get_object b k (calm (remove_all name s).1.db)).0 ≡ (get_object b k (calm s.db)).0
unfolding remove_all of_result ◌>>=◌
remove_all-kept name s parsed b k read other =
    let kept : Shows b k (view b k s.db) (remove_all name s).1.db =
      subst (λ r. Shows b k (view b k s.db) ((of_result r >>= remove_all_at) s).1.db) (sym read)
        ((remove_all_at-Shows b k (view b k s.db) parsed other).after s refl) in
    rw (get_object-eq-view b k (remove_all name s).1.db, get_object-eq-view b k s.db) kept
