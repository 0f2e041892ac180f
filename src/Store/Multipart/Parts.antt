-- ===== src/Store/Multipart/Parts.antt =====
-- When completeParts accepts a request, and what it finds.
use tg_files.Common.{
  ℕ, Text, Bool, ◌==◌, text_eq_iff, true, false, List, [], ◌∷◌, some, ◌≡◌, ◌↔◌, refl, arith, inl,
  inr, Bool-cases, Option-cases, All, ok, Result-cases, subst, ok_injective, subst, ok_injective,
}
use tg_files.Golang.Int64.{ℤ, ltb_ℤ, leb_ℤ}
use tg_files.Golang.Strings.{trim}
use tg_files.Metadata.Statements.{eqb_ℤ}
use tg_files.Metadata.Table.{find}
use tg_files.Metadata.Table.Members.{All-find}
use tg_files.Store.Multipart.{
  MultipartPart, CompletedPart, complete_parts, find_part, etag_matches, part_number,
}

abbrev is_quote : ℕ → Bool
is_quote c = c == b'"'

-- The requested part numbers ascend from above `last_part`, and each names the stored part that is
-- found: its ETag and the stored one are the same text without the quotes around them.
pub data Completes (stored : List MultipartPart)
    : ℤ → List CompletedPart → List MultipartPart → Type 0 where
  done : {last_part : ℤ} → Completes stored last_part [] []
  part :
      {last_part : ℤ} {requested : CompletedPart} {rest : List CompletedPart}
      {found : MultipartPart} {others : List MultipartPart}
      → ltb_ℤ last_part requested.part_number ≡ true
      → find part_number eqb_ℤ requested.part_number stored ≡ some found
      → trim is_quote requested.etag ≡ trim is_quote found.etag
      → Completes stored requested.part_number rest others
      → Completes stored last_part (requested ∷ rest) (found ∷ others)

etag_matches_iff :
    (stored submitted : Text)
    → (etag_matches stored submitted ≡ true) ↔ (trim is_quote submitted ≡ trim is_quote stored)
unfolding etag_matches
etag_matches_iff stored submitted = text_eq_iff (trim is_quote submitted) (trim is_quote stored)

module _ (stored : List MultipartPart) where
  complete_parts-of_Completes :
      (last_part : ℤ) (requested : List CompletedPart) (found : List MultipartPart)
      → Completes stored last_part requested found
      → complete_parts last_part stored requested ≡ ok found
  unfolding complete_parts find_part
  complete_parts-of_Completes last_part [] [] done = refl
  complete_parts-of_Completes last_part [] (f ∷ others) c = elim c [ ]
  complete_parts-of_Completes last_part (r ∷ rest) [] c = elim c [ ]
  complete_parts-of_Completes last_part (r ∷ rest) (f ∷ others) (part above there matches c) =
      let ih = complete_parts-of_Completes r.part_number rest others c in
      let in_order : leb_ℤ r.part_number last_part ≡ false = ground arith in
      let same = (etag_matches_iff f.etag r.etag).1 matches in
      rw (in_order, there, same, ih, complete_parts) refl

  Completes-of_ok :
      (last_part : ℤ) (requested : List CompletedPart) (found : List MultipartPart)
      → complete_parts last_part stored requested ≡ ok found
      → Completes stored last_part requested found
  unfolding complete_parts find_part
  Completes-of_ok last_part [] found e =
      subst (λ f. Completes stored last_part [] f) (ok_injective e) done
  Completes-of_ok last_part (r ∷ rest) found e = elim (Bool-cases (leb_ℤ r.part_number last_part)) [
    | inl late ↦ ground arith
    | inr in_order ↦ elim (Option-cases (find_part r.part_number stored)) [
      | inl missing ↦ ground arith
      | inr (f, there) ↦ elim (Bool-cases (etag_matches f.etag r.etag)) [
        | inr differs ↦ ground arith
        | inl matches ↦ elim (Result-cases (complete_parts r.part_number stored rest)) [
          | inl (refused, fails) ↦ ground arith
          | inr (others, returns) ↦
              let all : f ∷ others ≡ found = ground arith in
              subst (λ l. Completes stored last_part (r ∷ rest) l) all
                (part (ground arith) there ((etag_matches_iff f.etag r.etag).0 matches)
                  (Completes-of_ok r.part_number rest others returns))
        ]
      ]
    ]
  ]

  -- completeParts returns parts exactly when the requested part numbers ascend from above the last
  -- one and each names a stored part with an ETag that is the same without the quotes around it; it returns these parts in order.
  pub complete_parts_iff :
      (last_part : ℤ) (requested : List CompletedPart) (found : List MultipartPart)
      → (complete_parts last_part stored requested ≡ ok found)
        ↔ Completes stored last_part requested found
  complete_parts_iff last_part requested found = (
    Completes-of_ok last_part requested found,
    complete_parts-of_Completes last_part requested found,
  )

  -- What holds of every stored part holds of every part that is found.
  pub All-complete_parts :
      (P : MultipartPart → Type 0) (last_part : ℤ) (requested : List CompletedPart)
      (found : List MultipartPart)
      → All P stored
      → Completes stored last_part requested found
      → All P found
  unfolding find_part
  All-complete_parts P last_part [] [] h done = tt
  All-complete_parts P last_part (r ∷ rest) (f ∷ others) h (part above there matches c) = (
    All-find part_number eqb_ℤ P r.part_number f stored h there,
    All-complete_parts P r.part_number rest others h c,
  )
  All-complete_parts P last_part [] (f ∷ others) h c = elim c [ ]
  All-complete_parts P last_part (r ∷ rest) [] h c = elim c [ ]
