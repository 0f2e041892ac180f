-- ===== src/Store/Listing/Plain.antt =====
-- ListObjects without a delimiter: the first objects behind the cursor.
use tg_files.Common.{
  ℕ, zero, suc, ◌-◌, Text, Bool, true, false, ◌&&◌, List, [], ◌∷◌, ◌++◌, none, ◌≡◌, refl, arith,
  inl, inr, take, drop, ap, ◌∙◌, sym, length, length-append, length-drop, ltb, leb, Bool-cases,
  if_false, map, text_eq, append_assoc, subst, append-nil, All, text_lt,
}
use tg_files.Metadata.Types.{Object, Db}
use tg_files.Store.Listing.Entry.{
  ListObjectsInput, ListObjectsResult, Listing, go_on, page_full, walk, visit, visit_group,
  and_then, emitted, common_prefix, object_info, add_object,
}
use tg_files.Store.Listing.{effective_limit, start_listing, result_of}
use tg_files.Store.Listing.Loop.{settled}
use tg_files.Metadata.Table.{Unique}
use tg_files.Metadata.Statements.{same_object, object_key}
use tg_files.Store.Listing.Pages.{behind, last_of, behind-page, behind-All}
use tg_files.Store.Listing.Complete.{listing, closed, walk-no_room}

-- The listing that takes up every object of a list.
abbrev add_objects : List Object → Listing → Listing
add_objects [] st = st
add_objects (o ∷ objects) st = add_objects objects (add_object o st)

emitted-add_object : (o : Object) (st : Listing) → emitted (add_object o st) ≡ suc (emitted st)
unfolding object_info
emitted-add_object o st = omega (arith, length-append st.objects (object_info o ∷ []))

pub take-nil : {A : Type 0} (n : ℕ) → take {A = A} n [] ≡ []
take-nil zero = refl
take-nil (suc n) = refl

visit_group-plain_last :
    (limit : ℕ) (o : Object) (st : Listing)
    → leb limit (emitted st) ≡ false
    → leb limit (suc (emitted st)) ≡ true
    → visit_group limit o none st ≡ page_full (add_object o st)
unfolding visit_group object_info
visit_group-plain_last limit o st room full = ground (arith, emitted-add_object o st)

visit_group-plain :
    (limit : ℕ) (o : Object) (st : Listing)
    → leb limit (emitted st) ≡ false
    → leb limit (suc (emitted st)) ≡ false
    → visit_group limit o none st ≡ go_on (add_object o st)
unfolding visit_group object_info
visit_group-plain limit o st room more = ground (arith, emitted-add_object o st)

module _ (limit : ℕ) (input : ListObjectsInput) (plain : text_eq input.delimiter [] ≡ true) where
  visit-plain : (o : Object) (st : Listing) → visit limit input o st ≡ visit_group limit o none st
  unfolding visit common_prefix
  visit-plain o st = rw plain refl

  settled-walk :
      (objects : List Object) (st : Listing) (db : Db)
      → leb limit (emitted st) ≡ false
      → settled input db (walk limit input objects st)
        ≡ (add_objects (take (limit - emitted st) objects) st, false)
  unfolding walk settled and_then
  settled-walk [] st db room =
      ap (λ l. (add_objects l st, false)) (sym (take-nil (limit - emitted st)))
  settled-walk (o ∷ objects) st db room = elim (Bool-cases (leb limit (suc (emitted st)))) [
    | inl last ↦
        let here = visit-plain o st ∙ visit_group-plain_last limit o st room last in
        let one : limit - emitted st ≡ 1 = ground arith in
        ap (λ p. settled input db (and_then p (walk limit input objects))) here
        ∙ ap (λ n. (add_objects (take n (o ∷ objects)) st, false)) (sym one)
    | inr more ↦
        let here = visit-plain o st ∙ visit_group-plain limit o st room more in
        let next = emitted-add_object o st in
        let left : limit - emitted st ≡ suc (limit - emitted (add_object o st)) = ground arith in
        ap (λ p. settled input db (and_then p (walk limit input objects))) here
        ∙ settled-walk objects (add_object o st) db (rw next more)
        ∙ ap (λ n. (add_objects (take n (o ∷ objects)) st, false)) (sym left)
  ]

-- The key of the last object, or one from before.
abbrev pub last_key : Text → List Object → Text
last_key key [] = key
last_key key (o ∷ objects) = last_key o.key objects

add_objects-objects :
    (objects : List Object) (st : Listing)
    → (add_objects objects st).objects ≡ st.objects ++ map object_info objects
add_objects-objects [] st = sym (append-nil st.objects)
add_objects-objects (o ∷ objects) st =
    add_objects-objects objects (add_object o st)
    ∙ unfold object_info in append_assoc st.objects (object_info o ∷ []) (map object_info objects)

add_objects-common_prefixes :
    (objects : List Object) (st : Listing)
    → (add_objects objects st).common_prefixes ≡ st.common_prefixes
add_objects-common_prefixes [] st = refl
add_objects-common_prefixes (o ∷ objects) st =
    add_objects-common_prefixes objects (add_object o st) ∙ unfold object_info in refl

add_objects-next :
    (objects : List Object) (st : Listing)
    → (add_objects objects st).next_continuation_after ≡ last_key st.next_continuation_after objects
add_objects-next [] st = refl
add_objects-next (o ∷ objects) st =
    add_objects-next objects (add_object o st) ∙ unfold object_info in refl

All-take : {A : Type 0} (P : A → Type 0) (n : ℕ) (xs : List A) → All P xs → All P (take n xs)
All-take P zero xs h = tt
All-take P (suc n) [] h = tt
All-take P (suc n) (x ∷ xs) (p, h) = (p, All-take P n xs h)

last_of-All :
    (P : Object → Type 0) (o : Object) (objects : List Object)
    → All P (o ∷ objects)
    → P (last_of o objects)
last_of-All P o [] (p, h) = p
last_of-All P o (q ∷ objects) (p, h) = last_of-All P q objects h

pub last_key-last_of :
    (key : Text) (o : Object) (objects : List Object)
    → last_key key (o ∷ objects) ≡ (last_of o objects).key
last_key-last_of key o [] = refl
last_key-last_of key o (q ∷ objects) = last_key-last_of o.key q objects

not_empty : (after key : Text) → text_lt after key ≡ true → text_eq key [] ≡ false
unfolding text_lt text_eq
not_empty after [] h = ground arith
not_empty after (c ∷ key) h = refl

-- The result that holds the objects of a page.
abbrev pub result_with : List Object → Bool → ListObjectsResult
result_with page truncated = record {
  objects = map object_info page;
  common_prefixes = [];
  next_continuation_after = last_key [] page;
  is_truncated = truncated;
}

result_of-add_objects :
    (page : List Object) (after : Text) (truncated : Bool)
    → result_of (add_objects page (start_listing after)) truncated ≡ result_with page truncated
result_of-add_objects page after truncated =
    rw
      (
        add_objects-objects page (start_listing after),
        add_objects-common_prefixes page (start_listing after),
        add_objects-next page (start_listing after),
      )
      refl

-- Does a page of `n` objects leave some?
abbrev pub leaves : ℕ → List Object → Bool
leaves n objects = ltb 0 n && ltb n (length objects)

pub leaves-empty : (n : ℕ) (objects : List Object) → take n objects ≡ [] → leaves n objects ≡ false
leaves-empty zero objects e = refl
leaves-empty (suc n) [] e = ground arith
leaves-empty (suc n) (o ∷ objects) e = cc

leaves-drop :
    (n : ℕ) (objects : List Object) (o : Object) (page : List Object)
    → take n objects ≡ o ∷ page
    → ltb 0 (length (drop n objects)) ≡ leaves n objects
leaves-drop zero objects o page e = cc
leaves-drop (suc n) objects o page e = ground (arith, length-drop (suc n) objects)

module _ (input : ListObjectsInput) (db : Db)
    (unique : Unique object_key same_object db.objects) where
  abbrev all : List Object
  all = behind input input.after_key db

  closed-add_objects :
      (n : ℕ) (page : List Object)
      → take n all ≡ page
      → closed input db (add_objects page (start_listing input.after_key), false)
        ≡ result_with page (leaves n all)
  unfolding closed text_eq
  closed-add_objects n [] e = ap (result_with []) (sym (leaves-empty n all e))
  closed-add_objects n (o ∷ objects) e =
      let st = add_objects (o ∷ objects) (start_listing input.after_key) in
      let at : st.next_continuation_after ≡ (last_of o objects).key =
        add_objects-next (o ∷ objects) (start_listing input.after_key)
        ∙ last_key-last_of [] o objects in
      let named : text_eq st.next_continuation_after [] ≡ false = rw at (
        not_empty input.after_key (last_of o objects).key (
          last_of-All (λ (p : Object). text_lt input.after_key p.key ≡ true) o objects
            (subst (All (λ (p : Object). text_lt input.after_key p.key ≡ true)) e (
              All-take (λ (p : Object). text_lt input.after_key p.key ≡ true) n all
                (behind-All input input.after_key db))))) in
      let left : ltb 0 (length (behind input st.next_continuation_after db)) ≡ leaves n all =
        ap (λ k. ltb 0 (length (behind input k db))) at
        ∙ ap (λ l. ltb 0 (length l)) (behind-page input db unique input.after_key n o objects e)
        ∙ leaves-drop n all o objects e in
      if_false _ _ named
      ∙ ap (result_of st) left
      ∙ result_of-add_objects (o ∷ objects) input.after_key (leaves n all)

  -- Without a delimiter the listing holds the first objects behind the cursor.
  pub listing-plain :
      text_eq input.delimiter [] ≡ true
      → listing input db
        ≡ result_with
            (take (effective_limit input.limit) all)
            (leaves (effective_limit input.limit) all)
  unfolding listing
  listing-plain plain =
      let n = effective_limit input.limit in
      elim (Bool-cases (leb n 0)) [
        | inl empty ↦
            ap (closed input db) (walk-no_room n input input.after_key all db empty)
            ∙ let none_asked : n ≡ 0 = ground arith in rw none_asked (unfold closed text_eq in refl)
        | inr room ↦
            ap (closed input db) (
              settled-walk n input plain all (start_listing input.after_key) db room
              ∙ let whole : n - 0 ≡ n = omega arith in
                ap (λ m. (add_objects (take m all) (start_listing input.after_key), false)) whole)
            ∙ closed-add_objects n (take n all) refl
      ]
