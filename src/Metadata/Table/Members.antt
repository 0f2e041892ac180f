-- ===== src/Metadata/Table/Members.antt =====
-- How many rows a table has, and what holds of every row.
use tg_files.Common.{
  Bool, true, List, [], ◌∷◌, some, ◌≡◌, refl, arith, inl, inr, Bool-cases, length, All, ◌≤◌, ◌<◌,
  suc, subst,
}
use tg_files.Metadata.Table.{KeyTest, find, upsert, without, has_key}

module _ {A K : Type 0} (key : A → K) (same : K → K → Bool) where
  pub length-upsert : (a : A) (xs : List A) → length (upsert key same a xs) ≤ suc (length xs)
  unfolding upsert
  length-upsert a [] = omega arith
  length-upsert a (x ∷ xs) = ground (arith, length-upsert a xs)

  pub length-without : (k : K) (xs : List A) → length (without key same k xs) ≤ length xs
  unfolding without
  length-without k [] = omega arith
  length-without k (x ∷ xs) = ground (arith, length-without k xs)

  -- A DELETE of a key that is there.
  pub length-without_lt :
      (k : K) (xs : List A)
      → has_key key same k xs ≡ true
      → length (without key same k xs) < length xs
  unfolding without has_key
  length-without_lt k [] h = ground arith
  length-without_lt k (x ∷ xs) h = ground (arith, length-without_lt k xs, length-without k xs)

  -- The row that a query finds has the key.
  pub find-same :
      (k : K) (x : A) (xs : List A) → find key same k xs ≡ some x → same (key x) k ≡ true
  unfolding find
  find-same k x [] e = ground arith
  find-same k x (y ∷ xs) e = elim (Bool-cases (same (key y) k)) [
    | inl here ↦ let found : y ≡ x = ground arith in subst (λ z. same (key z) k ≡ true) found here
    | inr later ↦ find-same k x xs (ground arith)
  ]

  module _ (P : A → Type 0) where
    pub All-upsert : (a : A) (xs : List A) → P a → All P xs → All P (upsert key same a xs)
    unfolding upsert
    All-upsert a [] p h = (p, tt)
    All-upsert a (x ∷ xs) p (px, h) = elim (Bool-cases (same (key x) (key a))) [
      | inl old ↦ rw old (p, h)
      | inr other ↦ rw other (px, All-upsert a xs p h)
    ]

    pub All-without : (k : K) (xs : List A) → All P xs → All P (without key same k xs)
    unfolding without
    All-without k [] h = tt
    All-without k (x ∷ xs) (px, h) = elim (Bool-cases (same (key x) k)) [
      | inl gone ↦ rw gone (All-without k xs h)
      | inr kept ↦ rw kept (px, All-without k xs h)
    ]

    pub All-find : (k : K) (x : A) (xs : List A) → All P xs → find key same k xs ≡ some x → P x
    unfolding find
    All-find k x [] h e = ground arith
    All-find k x (y ∷ xs) (py, h) e = elim (Bool-cases (same (key y) k)) [
      | inl here ↦ let same_row : y ≡ x = ground arith in subst P same_row py
      | inr later ↦ All-find k x xs h (ground arith)
    ]

module _ {A K : Type 0} (key : A → K) (same : K → K → Bool) (test : KeyTest same) where
  pub has_key-find :
      (k : K) (x : A) (xs : List A)
      → find key same k xs ≡ some x
      → has_key key same (key x) xs ≡ true
  unfolding find has_key
  has_key-find k x [] e = ground arith
  has_key-find k x (y ∷ ys) e = elim (Bool-cases (same (key y) k)) [
    | inl here ↦
        let found : y ≡ x = ground arith in
        rw (← found, (test.same_iff (key y) (key y)).1 refl) refl
    | inr later ↦ ground (arith, has_key-find k x ys (ground arith))
  ]

  -- An upsert of a key that is there.
  pub length-upsert_there :
      (a : A) (xs : List A)
      → has_key key same (key a) xs ≡ true
      → length (upsert key same a xs) ≡ length xs
  unfolding upsert has_key
  length-upsert_there a [] h = ground arith
  length-upsert_there a (x ∷ xs) h = ground (arith, length-upsert_there a xs)
