-- ===== src/Dav/Directories/Whole.antt =====
-- metadata/sqlite.go: the pages of ListAllObjects add up to all objects below the prefix.
use tg_files.Common.{
  ℕ, zero, suc, ◌≤◌, ◌<◌, Text, List, [], ◌∷◌, ◌++◌, ◌≡◌, refl, arith, inl, inr, take, drop,
  take-drop, ap, ◌∙◌, sym, ok, length, subst, take_empty, append_assoc, append-nil, length-drop,
}
use tg_files.Golang.Int64.{pos}
use tg_files.Metadata.Types.{Object, Db}
use tg_files.Metadata.Sql.{Session, engine}
use tg_files.Metadata.Sql.Calm.{bind_ok, bind_err, pure-calm}
use tg_files.Metadata.Sql.Reads.{Reads, Reads-behind}
use tg_files.Metadata.Table.{Unique}
use tg_files.Metadata.Statements.{same_object, object_key}
use tg_files.Metadata.Prefixes.{last_key, gather_page, list_pages, list_all_objects}
use tg_files.Store.Listing.Entry.{ListObjectsInput}
use tg_files.Store.Listing.{next_page}
use tg_files.Store.Listing.Pages.{behind, next_page-Reads, last_of, behind-page}
use tg_files.Store.Listing.Complete.{length-behind}

-- The listing that asks for the same pages.
abbrev pub below : Text → Text → ListObjectsInput
below bucket prefix = record {
  bucket = bucket;
  prefix = prefix;
  delimiter = [];
  after_key = [];
  limit = pos 1000;
}

last_key-eq-last_of :
    (o : Object) (objects : List Object) → last_key o objects ≡ (last_of o objects).key
last_key-eq-last_of o [] = refl
last_key-eq-last_of o (p ∷ objects) = last_key-eq-last_of p objects

length-drop_some :
    (n : ℕ) (o : Object) (objects xs : List Object)
    → 0 < n
    → take n xs ≡ o ∷ objects
    → length (drop n xs) < length xs
length-drop_some zero o objects xs h e = elim h [ ]
length-drop_some (suc n) o objects [] h e = cc
length-drop_some (suc n) o objects (x ∷ xs) h e = omega (arith, length-drop n xs)

module _ (bucket prefix : Text) where
  gather_page-Reads :
      (fuel : ℕ) (cursor : Text) (s s' : Session) (all page : List Object)
      → take 1000 (behind (below bucket prefix) cursor s.db) ≡ page
      → Unique object_key same_object s.db.objects
      → s'.db ≡ s.db
      → length s'.faults ≤ length s.faults
      → ((key : Text) (more : List Object)
          → behind (below bucket prefix) key s'.db
            ≡ drop 1000 (behind (below bucket prefix) cursor s.db)
          → length (drop 1000 (behind (below bucket prefix) cursor s.db))
            < length (behind (below bucket prefix) cursor s.db)
          → Reads s'
              (more ++ behind (below bucket prefix) key s'.db)
              (list_pages fuel bucket prefix key more s'))
      → Reads s
          (all ++ behind (below bucket prefix) cursor s.db)
          (gather_page all (list_pages fuel bucket prefix) page s')
  unfolding gather_page
  gather_page-Reads fuel cursor s s' all [] e unique same fewer rest =
      let none_left = take_empty 1000 (behind (below bucket prefix) cursor s.db) (omega arith) e in
      rw (pure-calm all s') (same, fewer, inl (ap ok (rw none_left (sym (append-nil all)))))
  gather_page-Reads fuel cursor s s' all (o ∷ objects) e unique same fewer rest =
      let left = drop 1000 (behind (below bucket prefix) cursor s.db) in
      let key = last_key o objects in
      let there : behind (below bucket prefix) key s'.db ≡ left =
        ap (λ k. behind (below bucket prefix) k s'.db) (last_key-eq-last_of o objects)
        ∙ ap (λ d. behind (below bucket prefix) (last_of o objects).key d) same
        ∙ behind-page (below bucket prefix) s.db unique cursor 1000 o objects e in
      let whole : (all ++ o ∷ objects) ++ behind (below bucket prefix) key s'.db
          ≡ all ++ behind (below bucket prefix) cursor s.db =
        ap (λ l. (all ++ o ∷ objects) ++ l) there
        ∙ append_assoc all (o ∷ objects) left
        ∙ ap (λ l. all ++ l)
            (ap (λ l. l ++ left) (sym e)
              ∙ take-drop 1000 (behind (below bucket prefix) cursor s.db)) in
      rw (← whole) (
        Reads-behind s s' _ _ same fewer
          (rest key (all ++ o ∷ objects) there (length-drop_some 1000 o objects _ (omega arith) e)))

  list_pages-Reads :
      (fuel : ℕ) (cursor : Text) (all : List Object) (s : Session)
      → Unique object_key same_object s.db.objects
      → length (behind (below bucket prefix) cursor s.db) < fuel
      → Reads s
          (all ++ behind (below bucket prefix) cursor s.db)
          (list_pages fuel bucket prefix cursor all s)
  unfolding list_pages next_page
  list_pages-Reads zero cursor all s unique h = elim h [ ]
  list_pages-Reads (suc fuel) cursor all s unique h =
      let (r, s') = next_page (below bucket prefix) cursor 1000 s in
      let (same, fewer, outcome) =
        next_page-Reads (below bucket prefix) cursor 1000 s (omega arith) in
      elim outcome [
        | inl e ↦
            let one =
              bind_ok (next_page (below bucket prefix) cursor 1000)
                (gather_page all (list_pages fuel bucket prefix)) s _ (ap (λ q. (q, s')) e) in
            rw one (
              gather_page-Reads fuel cursor s s' all _ refl unique same fewer
                (λ key more there shorter.
                  list_pages-Reads fuel key more s'
                    (subst (λ (d : Db). Unique object_key same_object d.objects) (sym same) unique)
                    (rw there (omega arith))))
        | inr (e, refuses) ↦
            let one =
              bind_err (next_page (below bucket prefix) cursor 1000)
                (gather_page all (list_pages fuel bucket prefix)) s engine (ap (λ q. (q, s')) e) in
            rw one (same, fewer, inr (refl, refuses))
      ]

  -- On tables with unique keys, ListAllObjects changes nothing, and returns all objects of the bucket
  -- that match the prefix and have a key that is not empty, in the order of their keys, or the
  -- engine's error where the engine refuses a statement; the fuel of the model is always enough.
  pub list_all_objects-Reads :
      (s : Session)
      → Unique object_key same_object s.db.objects
      → Reads s (behind (below bucket prefix) [] s.db) (list_all_objects bucket prefix s)
  unfolding list_all_objects
  list_all_objects-Reads s unique =
      list_pages-Reads (suc (length s.db.objects)) [] [] s unique
        (omega (arith, length-behind (below bucket prefix) [] s.db))
