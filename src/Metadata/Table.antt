-- ===== src/Metadata/Table.antt =====
-- Tables with a PRIMARY KEY: what an upsert, an INSERT, a DELETE and an UPDATE do to the rows, and
-- that no key stands in two rows.
pub mod Members
use tg_files.Common.{
  Bool, true, false, not, List, [], ◌∷◌, ◌++◌, Option, none, some, ◌≡◌, ◌↔◌, refl, arith,
  if◌then◌else◌, select, subst, map, inl, inr, Bool-cases,
}

-- The test on a PRIMARY KEY decides equality.
pub record KeyTest {K : Type 0} (same : K → K → Bool) : Type 0 where
  pub same_iff : (j k : K) → (same j k ≡ true) ↔ (j ≡ k)

module _ {A K : Type 0} (key : A → K) (same : K → K → Bool) where
  -- SELECT … WHERE key = ?
  unfoldable pub find : K → List A → Option A
  find k [] = none
  find k (x ∷ xs) = if same (key x) k then some x else find k xs

  -- INSERT … ON CONFLICT DO UPDATE of every other column
  unfoldable pub upsert : A → List A → List A
  upsert a [] = a ∷ []
  upsert a (x ∷ xs) = let rest = upsert a xs in if same (key x) (key a) then a ∷ xs else x ∷ rest

  -- Is there a row with the key?
  unfoldable pub has_key : K → List A → Bool
  has_key k [] = false
  has_key k (x ∷ xs) = if same (key x) k then true else has_key k xs

  -- INSERT, refused when the key is there
  unfoldable pub insert : A → List A → Option (List A)
  unfolding has_key
  insert a xs = if has_key (key a) xs then none else some (xs ++ a ∷ [])

  -- DELETE … WHERE key = ?
  unfoldable pub without : K → List A → List A
  without k = select (λ x. not (same (key x) k))

  -- Does no key stand in two rows?
  unfoldable pub no_clash : List A → Bool
  unfolding has_key
  no_clash [] = true
  no_clash (x ∷ xs) = if has_key (key x) xs then false else no_clash xs

  -- UPDATE … SET … of a key column, refused when two rows would have one key
  unfoldable pub update : (A → A) → List A → Option (List A)
  unfolding no_clash
  update change xs = let ys = map change xs in if no_clash ys then some ys else none

  -- No key in two rows.
  abbrev pub Unique : List A → Type 0
  Unique [] = Unit
  Unique (x ∷ xs) = (has_key (key x) xs ≡ false) × Unique xs

-- The keys of the rows that a DELETE keeps are among the keys.
module _ {A K : Type 0} (key : A → K) (same : K → K → Bool) where
  has_key-select :
      (p : A → Bool) (k : K) (xs : List A)
      → has_key key same k xs ≡ false
      → has_key key same k (select p xs) ≡ false
  unfolding has_key
  has_key-select p k [] h = refl
  has_key-select p k (x ∷ xs) h = ground (arith, has_key-select p k xs)

  pub Unique-select :
      (p : A → Bool) (xs : List A) → Unique key same xs → Unique key same (select p xs)
  unfolding has_key
  Unique-select p [] h = tt
  Unique-select p (x ∷ xs) (fresh, rest) = elim (Bool-cases (p x)) [
    | inl keep ↦ rw keep (has_key-select p (key x) xs fresh, Unique-select p xs rest)
    | inr drop ↦ rw drop (Unique-select p xs rest)
  ]

  Unique-no_clash : (xs : List A) → no_clash key same xs ≡ true → Unique key same xs
  unfolding no_clash
  Unique-no_clash [] h = tt
  Unique-no_clash (x ∷ xs) h = (ground arith, Unique-no_clash xs (ground arith))

  pub Unique-update :
      (change : A → A) (xs ys : List A) → update key same change xs ≡ some ys → Unique key same ys
  unfolding update
  Unique-update change xs ys e = elim (Bool-cases (no_clash key same (map change xs))) [
    | inl fine ↦
        let changed : map change xs ≡ ys = ground arith in
        subst (Unique key same) changed (Unique-no_clash (map change xs) fine)
    | inr clash ↦ ground arith
  ]

  has_key-map :
      (change : A → A) (k : K) (xs : List A)
      → ((x : A) → key (change x) ≡ key x)
      → has_key key same k (map change xs) ≡ has_key key same k xs
  unfolding has_key
  has_key-map change k [] h = refl
  has_key-map change k (x ∷ xs) h = rw (h x, has_key-map change k xs h)

  -- An UPDATE of other columns.
  pub Unique-map :
      (change : A → A) (xs : List A)
      → ((x : A) → key (change x) ≡ key x)
      → Unique key same xs
      → Unique key same (map change xs)
  Unique-map change [] h u = tt
  Unique-map change (x ∷ xs) h (fresh, rest) =
      (rw (h x, has_key-map change (key x) xs h) fresh, Unique-map change xs h rest)

module _ {A K : Type 0} (key : A → K) (same : K → K → Bool) (test : KeyTest same) where
  has_key-upsert :
      (a : A) (k : K) (xs : List A)
      → has_key key same k (upsert key same a xs)
        ≡ (if same (key a) k then true else has_key key same k xs)
  unfolding has_key upsert
  has_key-upsert a k [] = ground arith
  has_key-upsert a k (x ∷ xs) = ground (
    arith,
    has_key-upsert a k xs,
    test.same_iff (key x) (key a),
    test.same_iff (key x) k,
    test.same_iff (key a) k,
  )

  pub Unique-upsert :
      (a : A) (xs : List A) → Unique key same xs → Unique key same (upsert key same a xs)
  unfolding has_key upsert
  Unique-upsert a [] h = (refl, tt)
  Unique-upsert a (x ∷ xs) (fresh, rest) = elim (Bool-cases (same (key x) (key a))) [
    | inl old ↦ rw old (
      subst (λ k. has_key key same k xs ≡ false) ((test.same_iff (key x) (key a)).0 old) fresh,
      rest,
    )
    | inr other ↦ rw other (
      ground (
        arith,
        has_key-upsert a (key x) xs,
        test.same_iff (key x) (key a),
        test.same_iff (key a) (key x),
      ),
      Unique-upsert a xs rest,
    )
  ]

  has_key-append :
      (k : K) (xs ys : List A)
      → has_key key same k (xs ++ ys)
        ≡ (if has_key key same k xs then true else has_key key same k ys)
  unfolding has_key
  has_key-append k [] ys = refl
  has_key-append k (x ∷ xs) ys = ground (arith, has_key-append k xs ys)

  Unique-concat :
      (a : A) (xs : List A)
      → has_key key same (key a) xs ≡ false
      → Unique key same xs
      → Unique key same (xs ++ a ∷ [])
  unfolding has_key
  Unique-concat a [] h u = (refl, tt)
  Unique-concat a (x ∷ xs) h (fresh, rest) = (
    ground (
      arith,
      has_key-append (key x) xs (a ∷ []),
      test.same_iff (key x) (key a),
      test.same_iff (key a) (key x),
    ),
    Unique-concat a xs (ground arith) rest,
  )

  pub Unique-insert :
      (a : A) (xs ys : List A)
      → insert key same a xs ≡ some ys
      → Unique key same xs
      → Unique key same ys
  unfolding insert
  Unique-insert a xs ys e u = elim (Bool-cases (has_key key same (key a) xs)) [
    | inl taken ↦ ground arith
    | inr fresh ↦
        let added : xs ++ a ∷ [] ≡ ys = ground arith in
        subst (Unique key same) added (Unique-concat a xs fresh u)
  ]

  -- Reading behind an upsert.
  pub find-upsert :
      (a : A) (k : K) (xs : List A)
      → find key same k (upsert key same a xs)
        ≡ (if same (key a) k then some a else find key same k xs)
  unfolding find upsert
  find-upsert a k [] = refl
  find-upsert a k (x ∷ xs) = ground (
    arith,
    find-upsert a k xs,
    test.same_iff (key x) (key a),
    test.same_iff (key x) k,
    test.same_iff (key a) k,
  )

  -- Reading behind a DELETE by key.
  pub find-without :
      (j k : K) (xs : List A)
      → find key same k (without key same j xs) ≡ (if same j k then none else find key same k xs)
  unfolding find without
  find-without j k [] = ground arith
  find-without j k (x ∷ xs) = ground (
    arith,
    find-without j k xs,
    test.same_iff (key x) j,
    test.same_iff (key x) k,
    test.same_iff j k,
  )
