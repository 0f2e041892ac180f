-- ===== src/Store/Listing/Walking.antt =====
-- The loop of ListObjects over a page: a walk over a list in two parts, and what it leaves.
use tg_files.Common.{
  ℕ, Text, false, List, [], ◌∷◌, ◌++◌, none, some, ◌≡◌, refl, arith, ap, ◌∙◌, leb, inl, inr, Option,
  ◌⊎◌,
}
use tg_files.Metadata.Types.{Object}
use tg_files.Store.Listing.Entry.{
  ListObjectsInput, Listing, Pass, go_on, page_full, filled, visit, visit_group, walk, and_then,
  object_info, emitted, common_prefix,
}
use tg_files.Store.Listing.Pages.{last_of}

-- A round moves the cursor to its object, unless the page was full before.
visit_group_go_on :
    (limit : ℕ) (object : Object) (group : Option Text) (st st' : Listing)
    → visit_group limit object group st ≡ go_on st'
    → st'.after_key ≡ object.key
unfolding visit_group object_info
visit_group_go_on limit object none st st' e = ground arith
visit_group_go_on limit object (some prefix) st st' e = ground arith

visit_group_filled :
    (limit : ℕ) (object : Object) (group : Option Text) (st st' : Listing) (prefix : Text)
    → visit_group limit object group st ≡ filled st' prefix
    → st'.after_key ≡ object.key
unfolding visit_group object_info
visit_group_filled limit object none st st' prefix e = ground arith
visit_group_filled limit object (some group) st st' prefix e = ground arith

visit_group_room :
    (limit : ℕ) (object : Object) (group : Option Text) (st st' : Listing)
    → visit_group limit object group st ≡ go_on st'
    → leb limit (emitted st) ≡ false
    → leb limit (emitted st') ≡ false
unfolding visit_group object_info
visit_group_room limit object none st st' e room = ground arith
visit_group_room limit object (some group) st st' e room = ground arith

-- A pass that stops here, or goes on.
and_then_go_on :
    (p : Pass) (f : Listing → Pass) (st : Listing)
    → and_then p f ≡ go_on st
    → (u : Listing) × (p ≡ go_on u) × (f u ≡ go_on st)
unfolding and_then
and_then_go_on (go_on u) f st e = (u, refl, e)
and_then_go_on (page_full u) f st e = cc
and_then_go_on (filled u prefix) f st e = cc

and_then_page_full :
    (p : Pass) (f : Listing → Pass) (st : Listing)
    → and_then p f ≡ page_full st
    → (p ≡ page_full st) ⊎ ((u : Listing) × (p ≡ go_on u) × (f u ≡ page_full st))
unfolding and_then
and_then_page_full (go_on u) f st e = inr (u, refl, e)
and_then_page_full (page_full u) f st e = inl e
and_then_page_full (filled u prefix) f st e = cc

and_then_filled :
    (p : Pass) (f : Listing → Pass) (st : Listing) (prefix : Text)
    → and_then p f ≡ filled st prefix
    → (p ≡ filled st prefix) ⊎ ((u : Listing) × (p ≡ go_on u) × (f u ≡ filled st prefix))
unfolding and_then
and_then_filled (go_on u) f st prefix e = inr (u, refl, e)
and_then_filled (page_full u) f st prefix e = cc
and_then_filled (filled u group) f st prefix e = inl e

module _ (limit : ℕ) (input : ListObjectsInput) where
  -- A walk over a list in two parts.
  pub walk-append :
      (xs ys : List Object) (st : Listing)
      → walk limit input (xs ++ ys) st ≡ and_then (walk limit input xs st) (walk limit input ys)
  unfolding walk and_then
  walk-append [] ys st = refl
  walk-append (x ∷ xs) ys st =
      elim (visit limit input x st)
        as (λ v.
          and_then v (walk limit input (xs ++ ys))
          ≡ and_then (and_then v (walk limit input xs)) (walk limit input ys)) [
            | go_on u ↦ walk-append xs ys u
            | page_full u ↦ refl
            | filled u prefix ↦ refl
          ]

  pub walk_go_on-last :
      (o : Object) (objects : List Object) (st st' : Listing)
      → walk limit input (o ∷ objects) st ≡ go_on st'
      → st'.after_key ≡ (last_of o objects).key
  unfolding walk visit
  walk_go_on-last o [] st st' e =
      let (u, here, there) = and_then_go_on (visit limit input o st) go_on st' e in
      visit_group_go_on limit o (common_prefix input o.key) st st' (here ∙ there)
  walk_go_on-last o (p ∷ objects) st st' e =
      let (u, here, there) =
        and_then_go_on (visit limit input o st) (walk limit input (p ∷ objects)) st' e in
      walk_go_on-last p objects u st' there

  -- Behind a walk that goes on there is room left.
  pub walk_go_on-room :
      (objects : List Object) (st st' : Listing)
      → walk limit input objects st ≡ go_on st'
      → leb limit (emitted st) ≡ false
      → leb limit (emitted st') ≡ false
  unfolding walk visit
  walk_go_on-room [] st st' e room = ground arith
  walk_go_on-room (o ∷ objects) st st' e room =
      let (u, here, there) =
        and_then_go_on (visit limit input o st) (walk limit input objects) st' e in
      walk_go_on-room objects u st' there
        (visit_group_room limit o (common_prefix input o.key) st u here room)

  -- A last entry that is a prefix leaves the cursor at an object of the list.
  pub walk_filled-split :
      (objects : List Object) (st st' : Listing) (prefix : Text)
      → walk limit input objects st ≡ filled st' prefix
      → (before : List Object) × (o : Object) × (behind : List Object) × (objects
          ≡ before ++ o ∷ behind)
        × (st'.after_key ≡ o.key)
  unfolding walk visit
  walk_filled-split [] st st' prefix e = cc
  walk_filled-split (o ∷ objects) st st' prefix e =
      elim (and_then_filled (visit limit input o st) (walk limit input objects) st' prefix e) [
        | inl here ↦ (
          [],
          o,
          objects,
          refl,
          visit_group_filled limit o (common_prefix input o.key) st st' prefix here,
        )
        | inr (u, here, there) ↦
            let (before, q, behind, split, at) = walk_filled-split objects u st' prefix there in
            (o ∷ before, q, behind, ap (λ l. o ∷ l) split, at)
      ]
