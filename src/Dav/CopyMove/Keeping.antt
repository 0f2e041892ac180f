-- ===== src/Dav/CopyMove/Keeping.antt =====
-- COPY and MOVE leave alone what is neither at their destination nor, for MOVE, at their source.
use tg_files.Common.{
  Text, Bool, true, false, not, ◌&&◌, ◌||◌, List, [], ◌++◌, ◌≡◌, refl, sym, subst, arith, Result,
  ok, text_eq, text_eq_iff,
}
use tg_files.Metadata.Types.{Db, Object, Chunk, Time}
use tg_files.Metadata.Sql.{Session, DbError, Sql, calm}
use tg_files.Metadata.Sql.Preserves.{Preserves}
use tg_files.Metadata.Objects.{get_object, delete_object_in_tx}
use tg_files.Metadata.Objects.RoundTrip.{view, get_object-eq-view}
use tg_files.Metadata.Prefixes.{delete_prefix_in_tx}
use tg_files.Metadata.Prefixes.Deletes.{is_below}
use tg_files.Metadata.Operations.Shown.{Shows, delete_object_in_tx-Shows, delete_prefix_in_tx-Shows}
use tg_files.Metadata.Operations.Copying.{
  KeepsCopies, copy_object-Preserves, move_object-Preserves, copy_prefix-Preserves,
  move_prefix-Preserves, put_copy-Shows, put_below-Shows,
}
use tg_files.Dav.Paths.{ParsedPath, root, at, parse_path, canonical_collection_key}
use tg_files.Dav.Steps.{raise, ◌>>=◌}
use tg_files.Dav.Steps.Keeping.{
  Keeps, Keeps-bind, Keeps-cases, Keeps-if, Keeps-then, Keeps-raise, Keeps-store, Keeps-telling,
  keep_rules,
}
use tg_files.Dav.FileSystem.{of_result}
use tg_files.Dav.FileSystem.Atomic.{of_result-IsSteady}
use tg_files.Dav.FileSystem.Removing.{covers, covers_parts}
use tg_files.Dav.CopyMove.{
  answered, copy_move_collection, copy_move_object, write_collection, write_object, copy_move_at,
  handle_copy_move, path_of, parse_overwrite, copy_move_error,
}
use tg_files.Dav.CopyMove.Atomic.{read_rules, source_is_collection-IsSteady}

answered-Keeps : (P : Db → Type 0) (m : Sql Bool) → Preserves P m → Keeps P (answered m)
unfolding answered
answered-Keeps P m h =
    Keeps-then _ _ (Keeps-telling copy_move_error m (Keeps-store m h))
      (λ created. search keep_rules)

module _ (P : Db → Type 0) (overwrite : Bool) (now : Time) (bucket : Text) where
  write_collection-Keeps :
      (move : Bool) (src dst : Text)
      → ((rest : Text) → KeepsCopies P bucket src dst overwrite now (dst ++ rest))
      → (move ≡ true → Preserves P (delete_prefix_in_tx bucket src))
      → Keeps P (write_collection move overwrite now bucket src dst)
  unfolding write_collection
  write_collection-Keeps true src dst copies gone =
      answered-Keeps P _ (move_prefix-Preserves P bucket src dst overwrite now copies (gone refl))
  write_collection-Keeps false src dst copies gone =
      answered-Keeps P _ (copy_prefix-Preserves P bucket src dst overwrite now copies)

  write_object-Keeps :
      (move : Bool) (src dst : Text)
      → KeepsCopies P bucket src dst overwrite now dst
      → (move ≡ true → Preserves P (delete_object_in_tx bucket src))
      → Keeps P (write_object move overwrite now bucket src dst)
  unfolding write_object
  write_object-Keeps true src dst copies gone =
      answered-Keeps P _ (move_object-Preserves P bucket src dst overwrite now copies (gone refl))
  write_object-Keeps false src dst copies gone =
      answered-Keeps P _ (copy_object-Preserves P bucket src dst overwrite now copies)

  copy_move_collection-Keeps :
      (move : Bool) (src dst : Text)
      → ((rest : Text)
          → KeepsCopies P bucket
              (canonical_collection_key src)
              (canonical_collection_key dst)
              overwrite
              now
              (canonical_collection_key dst ++ rest))
      → (move ≡ true → Preserves P (delete_prefix_in_tx bucket (canonical_collection_key src)))
      → Keeps P (copy_move_collection move overwrite now bucket src dst)
  unfolding copy_move_collection
  copy_move_collection-Keeps move src dst copies gone =
      search (keep_rules, read_rules, write_collection-Keeps, copies, gone) depth 9

  copy_move_object-Keeps :
      (move : Bool) (src dst : Text)
      → KeepsCopies P bucket src dst overwrite now dst
      → (move ≡ true → Preserves P (delete_object_in_tx bucket src))
      → Keeps P (copy_move_object move overwrite now bucket src dst)
  unfolding copy_move_object
  copy_move_object-Keeps move src dst copies gone =
      search (keep_rules, read_rules, write_object-Keeps, copies, gone) depth 9

-- Whether COPY or MOVE may change the object: what the destination's path covers, and for MOVE what
-- the source's path covers.
unfoldable pub touches : Bool → ParsedPath → ParsedPath → Text → Text → Bool
touches move src dst b k = covers dst b k || move && covers src b k

module _ (b k : Text) (v : Result DbError (Object × List Chunk)) (move overwrite : Bool)
    (now : Time) where
  copy_move_at-Shows :
      (src dst : ParsedPath)
      → touches move src dst b k ≡ false
      → Keeps (Shows b k v) (copy_move_at move overwrite now src dst)
  unfolding touches copy_move_at
  copy_move_at-Shows root dst other = Keeps-raise 403
  copy_move_at-Shows (at bucket key) root other = Keeps-raise 403
  copy_move_at-Shows (at bucket src) (at dst_bucket dst) other =
      Keeps-cases (text_eq src [] || text_eq dst [] || not (text_eq bucket dst_bucket)) (raise 403)
        _ (λ refused. Keeps-raise 403)
        (λ fine.
          let same : bucket ≡ dst_bucket = ground (arith, text_eq_iff bucket dst_bucket) in
          let apart : text_eq b dst_bucket
                  && (text_eq dst [] || text_eq k dst || is_below (canonical_collection_key dst) k)
                || move
                  && (text_eq b bucket
                      && (text_eq src []
                          || text_eq k src
                          || is_below (canonical_collection_key src) k))
              ≡ false =
            rw (covers_parts dst_bucket dst b k, covers_parts bucket src b k) at other in
          let free : text_eq b bucket
                && (text_eq k dst || is_below (canonical_collection_key dst) k)
              ≡ false =
            subst
              (λ c.
                text_eq b c && (text_eq k dst || is_below (canonical_collection_key dst) k) ≡ false)
              (sym same) (ground arith) in
          Keeps-bind _ _ (source_is_collection-IsSteady bucket src) (λ is_collection.
            Keeps-if is_collection _ _
              (copy_move_collection-Keeps (Shows b k v) overwrite now bucket move src dst
                (λ rest o chunks.
                  put_below-Shows b k v bucket (canonical_collection_key dst) (ground arith) rest o
                    chunks now)
                (λ moves.
                  delete_prefix_in_tx-Shows b k v bucket (canonical_collection_key src)
                    (ground arith)))
              (copy_move_object-Keeps (Shows b k v) overwrite now bucket move src dst
                (λ o chunks. put_copy-Shows b k v bucket dst (ground arith) o chunks now)
                (λ moves. delete_object_in_tx-Shows b k v bucket src (ground arith)))))

pub path_of_ok : (p : Text) (parsed : ParsedPath) → parse_path p ≡ ok parsed → path_of p ≡ ok parsed
unfolding path_of
path_of_ok p parsed e = rw (e, path_of) refl

handle_copy_move-Shows :
    (b k : Text) (v : Result DbError (Object × List Chunk)) (move : Bool)
    (header src_path dst_path : Text) (now : Time) (src dst : ParsedPath)
    → parse_path src_path ≡ ok src
    → parse_path dst_path ≡ ok dst
    → touches move src dst b k ≡ false
    → Keeps (Shows b k v) (handle_copy_move move header src_path dst_path now)
unfolding handle_copy_move of_result ◌>>=◌
handle_copy_move-Shows b k v move header src_path dst_path now src dst of_src of_dst other =
    Keeps-bind (of_result (parse_overwrite header)) _ (of_result-IsSteady (parse_overwrite header))
      (λ overwrite.
        subst
          (λ r. Keeps (Shows b k v) (
            of_result r >>= λ x.
            of_result (path_of dst_path) >>= λ y. copy_move_at move overwrite now x y))
          (sym (path_of_ok src_path src of_src))
          (subst
            (λ r. Keeps (Shows b k v) (of_result r >>= λ y. copy_move_at move overwrite now src y))
            (sym (path_of_ok dst_path dst of_dst))
            (copy_move_at-Shows b k v move overwrite now src dst other)))

-- COPY and MOVE between two paths, whatever they are answered and whichever statements the engine
-- refuses, change nothing of what GetObject shows of an object that the destination's path does not
-- cover, nor, for MOVE, the source's path: a path covers the objects of a bucket it names without a
-- key, and otherwise the object of its key, and the objects of that bucket whose keys begin with the
-- key and a slash, or with the key where it ends with a slash, up to the case of ASCII letters.
pub handle_copy_move-kept :
    (move : Bool) (header src_path dst_path : Text) (now : Time) (s : Session)
    (src dst : ParsedPath) (b k : Text)
    → parse_path src_path ≡ ok src
    → parse_path dst_path ≡ ok dst
    → touches move src dst b k ≡ false
    → (get_object b k (calm (handle_copy_move move header src_path dst_path now s).1.db)).0
      ≡ (get_object b k (calm s.db)).0
handle_copy_move-kept move header src_path dst_path now s src dst b k of_src of_dst other =
    let kept : Shows b k (view b k s.db)
        (handle_copy_move move header src_path dst_path now s).1.db =
      (handle_copy_move-Shows b k (view b k s.db) move header src_path dst_path now src dst of_src
          of_dst other).after
        s refl in
    rw
      (
        get_object-eq-view b k (handle_copy_move move header src_path dst_path now s).1.db,
        get_object-eq-view b k s.db,
      )
      kept
