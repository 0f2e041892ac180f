-- ===== src/Golang/Sorting.antt =====
-- Sorting by a total order: the order of the elements that are sorted does not show.
use tg_files.Common.{Bool, true, false, List, [], ◌∷◌, ◌≡◌, refl, arith, ap, ◌∙◌}
use tg_files.Metadata.Statements.{order_by, sorted_insert}

-- `before` as a strict total order.
pub record IsTotal {A : Type 0} (before : A → A → Bool) : Type 0 where
  pub asymmetric : (x y : A) → before x y ≡ true → before y x ≡ false
  pub total : (x y : A) → before x y ≡ false → before y x ≡ false → x ≡ y
  pub le_lt_trans : (x y z : A) → before y x ≡ false → before y z ≡ true → before x z ≡ true

-- One list is the other with its elements in another order.
pub data Reordered {A : Type 0} : List A → List A → Type 0 where
  same : (xs : List A) → Reordered xs xs
  swap : (x y : A) (xs : List A) → Reordered (x ∷ y ∷ xs) (y ∷ x ∷ xs)
  skip : (x : A) {xs ys : List A} → Reordered xs ys → Reordered (x ∷ xs) (x ∷ ys)
  then_also : {xs ys zs : List A} → Reordered xs ys → Reordered ys zs → Reordered xs zs

module _ {A : Type 0} (before : A → A → Bool) (order : IsTotal before) where
  sorted_insert_comm :
      (x y : A) (xs : List A)
      → sorted_insert before x (sorted_insert before y xs)
        ≡ sorted_insert before y (sorted_insert before x xs)
  unfolding sorted_insert
  sorted_insert_comm x y [] = ground (arith, order.asymmetric x y, order.total x y)
  sorted_insert_comm x y (h ∷ xs) = ground (
    arith,
    order.asymmetric x y,
    order.total x y,
    order.le_lt_trans y h x,
    order.le_lt_trans x h y,
    sorted_insert_comm x y xs,
  )

  pub order_by-Reordered :
      {xs ys : List A} → Reordered xs ys → order_by before xs ≡ order_by before ys
  unfolding order_by
  order_by-Reordered (same xs) = refl
  order_by-Reordered (swap x y xs) = sorted_insert_comm x y (order_by before xs)
  order_by-Reordered (skip x r) = ap (sorted_insert before x) (order_by-Reordered r)
  order_by-Reordered (then_also r q) = order_by-Reordered r ∙ order_by-Reordered q
