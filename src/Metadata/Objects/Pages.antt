-- ===== src/Metadata/Objects/Pages.antt =====
-- ListObjects behind a key: the rows ascend strictly, and the rows behind one of them are those that
-- follow it.
use tg_files.Common.{
  Text, Bool, true, false, ◌&&◌, List, [], ◌∷◌, ◌++◌, ◌≡◌, refl, arith, All, select, text_lt,
  text_eq, text_eq_iff, text_lt_irrefl, text_lt_trans, text_lt_le_trans, text_lt_total, Bool-cases,
  inl, inr, ap, ◌∙◌, sym, if◌then◌else◌,
}
use tg_files.Metadata.Types.{ObjectRow, Db}
use tg_files.Metadata.Like.{like}
use tg_files.Metadata.Table.{has_key, Unique}
use tg_files.Metadata.Statements.{order_by, sorted_insert, key_before, same_object, object_key}

-- The rows of a bucket whose keys match a pattern and come behind a key.
abbrev pub is_behind : Text → Text → Text → ObjectRow → Bool
is_behind bucket pattern after row =
    text_eq row.bucket bucket && like pattern row.key && text_lt after row.key

unfoldable pub rows_behind : Text → Text → Text → Db → List ObjectRow
unfolding order_by key_before
rows_behind bucket pattern after db =
    order_by key_before (select (is_behind bucket pattern after) db.objects)

-- The keys ascend strictly from above `low`.
abbrev pub Climbs : Text → List ObjectRow → Type 0
Climbs low [] = Unit
Climbs low (r ∷ rows) = (text_lt low r.key ≡ true) × Climbs r.key rows

abbrev Lacks : Text → List ObjectRow → Type 0
Lacks key = All (λ r. text_eq r.key key ≡ false)

Lacks-insert :
    (key : Text) (r : ObjectRow) (rows : List ObjectRow)
    → text_eq r.key key ≡ false
    → Lacks key rows
    → Lacks key (sorted_insert key_before r rows)
unfolding sorted_insert
Lacks-insert key r [] e h = (e, tt)
Lacks-insert key r (x ∷ rows) e (ex, h) = elim (Bool-cases (key_before x r)) [
  | inl less ↦ rw less (ex, Lacks-insert key r rows e h)
  | inr more ↦ rw more (e, (ex, h))
]

Climbs-insert :
    (low : Text) (r : ObjectRow) (rows : List ObjectRow)
    → text_lt low r.key ≡ true
    → Lacks r.key rows
    → Climbs low rows
    → Climbs low (sorted_insert key_before r rows)
unfolding sorted_insert key_before
Climbs-insert low r [] lt lacks h = (lt, tt)
Climbs-insert low r (x ∷ rows) lt (ne, lacks) (xlt, h) = elim (Bool-cases (text_lt x.key r.key)) [
  | inl less ↦ rw less (xlt, Climbs-insert x.key r rows less lacks h)
  | inr more ↦ rw more (
    lt,
    (
      ground (
        arith,
        Bool-cases (text_lt r.key x.key),
        text_lt_total x.key r.key more,
        text_eq_iff x.key r.key,
      ),
      h,
    ),
  )
]

module _ (bucket pattern after : Text) where
  Lacks-fresh :
      (key : Text) (rows : List ObjectRow)
      → has_key object_key same_object (bucket, key) rows ≡ false
      → Lacks key (order_by key_before (select (is_behind bucket pattern after) rows))
  unfolding has_key same_object order_by
  Lacks-fresh key [] h = tt
  Lacks-fresh key (r ∷ rows) h = elim (Bool-cases (is_behind bucket pattern after r)) [
    | inl mine ↦ rw mine (
        Lacks-insert key r (order_by key_before (select (is_behind bucket pattern after) rows))
          (ground arith) (Lacks-fresh key rows (ground arith)))
    | inr other ↦ rw other (Lacks-fresh key rows (ground arith))
  ]

  Climbs-order_by :
      (rows : List ObjectRow)
      → Unique object_key same_object rows
      → Climbs after (order_by key_before (select (is_behind bucket pattern after) rows))
  unfolding order_by
  Climbs-order_by [] u = tt
  Climbs-order_by (r ∷ rows) (fresh, u) = elim (Bool-cases (is_behind bucket pattern after r)) [
    | inl mine ↦
        let of_bucket : r.bucket ≡ bucket = ground (arith, text_eq_iff r.bucket bucket) in
        rw mine (
          Climbs-insert after r (order_by key_before (select (is_behind bucket pattern after) rows))
            (ground arith) (Lacks-fresh r.key rows (rw of_bucket at fresh))
            (Climbs-order_by rows u))
    | inr other ↦ rw other (Climbs-order_by rows u)
  ]

  -- With unique keys the rows of a page ascend strictly from above the cursor.
  pub Climbs-rows_behind :
      (db : Db)
      → Unique object_key same_object db.objects
      → Climbs after (rows_behind bucket pattern after db)
  unfolding rows_behind
  Climbs-rows_behind db u = Climbs-order_by db.objects u

-- Rows above a key, of rows in the order of their keys.
select-insert :
    (key : Text) (r : ObjectRow) (rows : List ObjectRow)
    → select (λ x. text_lt key x.key) (sorted_insert key_before r rows) ≡ (
        if text_lt key r.key
        then sorted_insert key_before r (select (λ x. text_lt key x.key) rows)
        else select (λ x. text_lt key x.key) rows)
unfolding sorted_insert key_before
select-insert key r [] = refl
select-insert key r (x ∷ rows) =
    ground (arith, select-insert key r rows, text_lt_le_trans key r.key x.key)

select-order_by :
    (key : Text) (rows : List ObjectRow)
    → select (λ x. text_lt key x.key) (order_by key_before rows)
      ≡ order_by key_before (select (λ x. text_lt key x.key) rows)
unfolding order_by
select-order_by key [] = refl
select-order_by key (r ∷ rows) = elim (Bool-cases (text_lt key r.key)) [
  | inl above ↦
      select-insert key r (order_by key_before rows) ∙ rw (above, select-order_by key rows)
  | inr below ↦
      select-insert key r (order_by key_before rows) ∙ rw (below, select-order_by key rows)
]

select-is_behind :
    (bucket pattern after key : Text) (rows : List ObjectRow)
    → text_lt after key ≡ true
    → select (λ x. text_lt key x.key) (select (is_behind bucket pattern after) rows)
      ≡ select (is_behind bucket pattern key) rows
select-is_behind bucket pattern after key [] h = refl
select-is_behind bucket pattern after key (r ∷ rows) h =
    ground
      (arith, select-is_behind bucket pattern after key rows h, text_lt_trans after key r.key h)

select_above :
    (low : Text) (rows : List ObjectRow)
    → Climbs low rows
    → (key : Text) → text_lt key low ≡ true
    → select (λ x. text_lt key x.key) rows ≡ rows
select_above low [] h key k = refl
select_above low (r ∷ rows) (lt, h) key k =
    let above : text_lt key r.key ≡ true = text_lt_trans key low r.key k lt in
    rw (above, select_above r.key rows h key above)

Climbs-last :
    (low : Text) (xs : List ObjectRow) (r : ObjectRow) (ys : List ObjectRow)
    → Climbs low (xs ++ r ∷ ys)
    → text_lt low r.key ≡ true
Climbs-last low [] r ys (lt, h) = lt
Climbs-last low (x ∷ xs) r ys (lt, h) =
    text_lt_trans low x.key r.key lt (Climbs-last x.key xs r ys h)

select_behind_self :
    (r : ObjectRow) (ys : List ObjectRow)
    → Climbs r.key ys
    → select (λ x. text_lt r.key x.key) ys ≡ ys
select_behind_self r [] h = refl
select_behind_self r (y ∷ ys) (lt, h) = rw (lt, select_above y.key ys h r.key lt)

select_behind :
    (low : Text) (xs : List ObjectRow) (r : ObjectRow) (ys : List ObjectRow)
    → Climbs low (xs ++ r ∷ ys)
    → select (λ x. text_lt r.key x.key) (xs ++ r ∷ ys) ≡ ys
select_behind low [] r ys (lt, h) = rw (text_lt_irrefl r.key, select_behind_self r ys h)
select_behind low (x ∷ xs) r ys (lt, h) = ground (
  arith,
  Climbs-last x.key xs r ys h,
  text_lt_trans x.key r.key x.key,
  text_lt_irrefl x.key,
  select_behind x.key xs r ys h,
)

module _ (bucket pattern : Text) (db : Db) (unique : Unique object_key same_object db.objects) where
  -- The page behind a row of a page begins with the row that follows it.
  pub rows_behind-resume :
      (after : Text) (xs : List ObjectRow) (r : ObjectRow) (ys : List ObjectRow)
      → rows_behind bucket pattern after db ≡ xs ++ r ∷ ys
      → rows_behind bucket pattern r.key db ≡ ys
  rows_behind-resume after xs r ys e =
      let climbs : Climbs after (xs ++ r ∷ ys) =
        rw (← e) (Climbs-rows_behind bucket pattern after db unique) in
      let above = Climbs-last after xs r ys climbs in
      unfold rows_behind in
      (sym (ap (order_by key_before) (select-is_behind bucket pattern after r.key db.objects above))
        ∙ sym (select-order_by r.key (select (is_behind bucket pattern after) db.objects))
        ∙ ap (λ l. select (λ x. text_lt r.key x.key) l) e
        ∙ select_behind after xs r ys climbs)

above-insert :
    (key : Text) (r : ObjectRow) (rows : List ObjectRow)
    → text_lt key r.key ≡ true
    → All (λ x. text_lt key x.key ≡ true) rows
    → All (λ x. text_lt key x.key ≡ true) (sorted_insert key_before r rows)
unfolding sorted_insert
above-insert key r [] e h = (e, tt)
above-insert key r (x ∷ rows) e (ex, h) = elim (Bool-cases (key_before x r)) [
  | inl less ↦ rw less (ex, above-insert key r rows e h)
  | inr more ↦ rw more (e, (ex, h))
]

above-order_by :
    (bucket pattern after : Text) (rows : List ObjectRow)
    → All
        (λ x. text_lt after x.key ≡ true)
        (order_by key_before (select (is_behind bucket pattern after) rows))
unfolding order_by
above-order_by bucket pattern after [] = tt
above-order_by bucket pattern after (r ∷ rows) =
    elim (Bool-cases (is_behind bucket pattern after r)) [
      | inl mine ↦ rw mine (
          above-insert after r (order_by key_before (select (is_behind bucket pattern after) rows))
            (ground arith) (above-order_by bucket pattern after rows))
      | inr other ↦ rw other (above-order_by bucket pattern after rows)
    ]

-- Every row behind a key comes behind it.
pub rows_behind-All :
    (bucket pattern after : Text) (db : Db)
    → All (λ x. text_lt after x.key ≡ true) (rows_behind bucket pattern after db)
unfolding rows_behind
rows_behind-All bucket pattern after db = above-order_by bucket pattern after db.objects
