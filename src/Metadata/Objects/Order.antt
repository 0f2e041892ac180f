-- ===== src/Metadata/Objects/Order.antt =====
-- With unique keys the chunks that a query returns ascend.
use tg_files.Common.{
  Text, true, false, List, [], ◌∷◌, ◌≡◌, arith, All, select, text_eq_iff, Bool-cases, inl, inr,
}
use tg_files.Golang.Int64.{ℤ, ltb_ℤ}
use tg_files.Metadata.Types.{Chunk}
use tg_files.Metadata.Table.{has_key, Unique}
use tg_files.Metadata.Statements.{
  chunk_key, same_chunk, of_object, order_by, sorted_insert, part_before, eqb_ℤ,
}
use tg_files.Metadata.Objects.Stored.{Ascending, Ascends}

-- No chunk has the part number.
abbrev Avoids : ℤ → List Chunk → Type 0
Avoids p = All (λ c. eqb_ℤ c.part_number p ≡ false)

Avoids-insert :
    (p : ℤ) (c : Chunk) (cs : List Chunk)
    → eqb_ℤ c.part_number p ≡ false
    → Avoids p cs
    → Avoids p (sorted_insert part_before c cs)
unfolding sorted_insert
Avoids-insert p c [] e h = (e, tt)
Avoids-insert p c (d ∷ cs) e (ed, h) = elim (Bool-cases (part_before d c)) [
  | inl less ↦ rw less (ed, Avoids-insert p c cs e h)
  | inr more ↦ rw more (e, (ed, h))
]

module _ (bucket key : Text) where
  Ascending-insert :
      (low : ℤ) (c : Chunk) (cs : List Chunk)
      → c.bucket ≡ bucket
      → c.key ≡ key
      → ltb_ℤ low c.part_number ≡ true
      → Avoids c.part_number cs
      → Ascending bucket key low cs
      → Ascending bucket key low (sorted_insert part_before c cs)
  unfolding sorted_insert part_before
  Ascending-insert low c [] eb ek lt avoid h = (eb, ek, lt, tt)
  Ascending-insert low c (d ∷ cs) eb ek lt (ne, avoid) (db, dk, dlt, h) =
      elim (Bool-cases (ltb_ℤ d.part_number c.part_number)) [
        | inl less ↦ rw less (db, dk, dlt, Ascending-insert d.part_number c cs eb ek less avoid h)
        | inr more ↦ rw more (eb, ek, lt, (db, dk, unfold eqb_ℤ in ground arith, h))
      ]

  Ascends-insert :
      (c : Chunk) (cs : List Chunk)
      → c.bucket ≡ bucket
      → c.key ≡ key
      → Avoids c.part_number cs
      → Ascends bucket key cs
      → Ascends bucket key (sorted_insert part_before c cs)
  unfolding sorted_insert part_before
  Ascends-insert c [] eb ek avoid h = (eb, ek, tt)
  Ascends-insert c (d ∷ cs) eb ek (ne, avoid) (db, dk, h) =
      elim (Bool-cases (ltb_ℤ d.part_number c.part_number)) [
        | inl less ↦ rw less (db, dk, Ascending-insert d.part_number c cs eb ek less avoid h)
        | inr more ↦ rw more (eb, ek, (db, dk, unfold eqb_ℤ in ground arith, h))
      ]

  Avoids-fresh :
      (p : ℤ) (rows : List Chunk)
      → has_key chunk_key same_chunk (bucket, key, p) rows ≡ false
      → Avoids p (order_by part_before (select (of_object bucket key) rows))
  unfolding has_key same_chunk order_by
  Avoids-fresh p [] h = tt
  Avoids-fresh p (r ∷ rows) h = elim (Bool-cases (of_object bucket key r)) [
    | inl mine ↦ rw mine (
        Avoids-insert p r (order_by part_before (select (of_object bucket key) rows))
          (unfold of_object in ground arith) (Avoids-fresh p rows (ground arith)))
    | inr other ↦ rw other (Avoids-fresh p rows (ground arith))
  ]

  of_object_iff : (r : Chunk) → of_object bucket key r ≡ true → (r.bucket ≡ bucket) × (r.key ≡ key)
  unfolding of_object
  of_object_iff r h =
      (ground (arith, text_eq_iff r.bucket bucket), ground (arith, text_eq_iff r.key key))

  -- The chunks that GetObject finds ascend, when no key stands in two rows.
  pub Ascends-select :
      (rows : List Chunk)
      → Unique chunk_key same_chunk rows
      → Ascends bucket key (order_by part_before (select (of_object bucket key) rows))
  unfolding order_by
  Ascends-select [] u = tt
  Ascends-select (r ∷ rows) (fresh, u) = elim (Bool-cases (of_object bucket key r)) [
    | inl mine ↦
        let (eb, ek) = of_object_iff r mine in
        rw mine (
          Ascends-insert r (order_by part_before (select (of_object bucket key) rows)) eb ek
            (Avoids-fresh r.part_number rows (rw (eb, ek) at fresh)) (Ascends-select rows u))
    | inr other ↦ rw other (Ascends-select rows u)
  ]
