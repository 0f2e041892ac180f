-- ===== src/Dav/Directories/Reading.antt =====
-- Reading a directory in batches.
use tg_files.Common.{
  ℕ, zero, suc, ◌+◌, ◌-◌, ◌≤◌, ◌<◌, true, List, [], ◌∷◌, ◌++◌, Option, some, ◌≡◌, refl, ap, ◌∙◌,
  arith, length, take, drop, ltb, sym, drop_all, take_all, append-nil, ◌⊎◌, Bool-cases, ltb,
  take-drop, inl, inr,
}
use tg_files.Golang.Int64.{pos, add64_pos, int64_max}
use tg_files.Dav.FileSystem.{DavFileInfo}
use tg_files.Dav.Directories.{
  DavFile, ReaddirResult, infos, eof, readdir, read_batches, gather, ReaddirResult,
}

lt_or_le : (m n : ℕ) → (m < n) ⊎ (n ≤ m)
lt_or_le m n = elim (Bool-cases (ltb m n)) [
  | inl less ↦ inl (ground arith)
  | inr not_less ↦ inr (ground arith)
]

drop-drop : (m n : ℕ) (xs : List DavFileInfo) → drop (m + n) xs ≡ drop n (drop m xs)
drop-drop zero n xs = let e : 0 + n ≡ n = omega arith in rw e refl
drop-drop (suc m) n [] = drop_all (suc m + n) [] (omega arith) ∙ sym (drop_all n [] (omega arith))
drop-drop (suc m) n (x ∷ xs) =
    let e : suc m + n ≡ suc (m + n) = omega arith in ap (λ l. drop l (x ∷ xs)) e ∙ drop-drop m n xs

length-drop : (m : ℕ) (xs : List DavFileInfo) → length (drop m xs) ≡ length xs - m
length-drop zero xs = omega arith
length-drop (suc m) [] = omega arith
length-drop (suc m) (x ∷ xs) = ground (arith, length-drop m xs)

module _ (children : List DavFileInfo) where
  abbrev file : ℕ → DavFile
  file start = record { is_dir = true; children = children; read_pos = start }

  readdir_end :
      (n start : ℕ)
      → 0 < n
      → length children ≤ start
      → readdir (pos n) (file start) ≡ (eof, file start)
  unfolding readdir
  readdir_end n start h behind = ground arith

  -- A batch within the children.
  readdir_batch :
      (n start : ℕ)
      → 0 < n
      → start + n ≤ int64_max
      → start + n < length children
      → readdir (pos n) (file start) ≡ (infos (take n (drop start children)), file (start + n))
  unfolding readdir
  readdir_batch n start h fits within = rw (add64_pos start n fits) (ground arith)

  -- The last batch.
  readdir_last :
      (n start : ℕ)
      → 0 < n
      → start + n ≤ int64_max
      → start < length children
      → length children ≤ start + n
      → readdir (pos n) (file start)
        ≡ (infos (take (length children - start) (drop start children)), file (length children))
  unfolding readdir
  readdir_last n start h fits some_left within = rw (add64_pos start n fits) (ground arith)

  -- One round of the reader.
  round :
      (fuel n start : ℕ) (out : ReaddirResult × DavFile) (rest : Option (List DavFileInfo))
      → readdir (pos n) (file start) ≡ out
      → read_batches fuel (pos n) out.1 ≡ rest
      → read_batches (suc fuel) (pos n) (file start) ≡ gather out.0 rest
  unfolding read_batches
  round fuel n start out rest e r = rw (e, r) refl

  read_from :
      (fuel n start : ℕ)
      → 0 < n
      → length children + n ≤ int64_max
      → start ≤ length children
      → length children - start < fuel
      → read_batches fuel (pos n) (file start) ≡ some (drop start children)
  unfolding gather
  read_from zero n start h fits inside enough = absurd (ground arith)
  read_from (suc fuel) n start h fits inside enough = elim (lt_or_le start (length children)) [
    | inr behind ↦
        round fuel n start (eof, file start) _ (readdir_end n start h behind) refl
        ∙ ap some (sym (drop_all start children behind))
    | inl ahead ↦ elim (lt_or_le (start + n) (length children)) [
      | inl within ↦
          round fuel n start _ (some (drop (start + n) children))
            (readdir_batch n start h (omega arith) within)
            (read_from fuel n (start + n) h fits (omega arith) (omega arith))
          ∙ ap some (
              ap (λ l. take n (drop start children) ++ l) (drop-drop start n children)
              ∙ take-drop n (drop start children))
      | inr last ↦
          round fuel n start _ (some (drop (length children) children))
            (readdir_last n start h (omega arith) ahead last)
            (read_from fuel n (length children) h fits (omega arith) (omega arith))
          ∙ ap some (
              rw
                (
                  drop_all (length children) children (omega arith),
                  take_all (length children - start) (drop start children)
                      (rw (length-drop start children) (omega arith)),
                  append-nil,
                )
                refl)
    ]
  ]

-- Whoever reads a directory from its start in batches of a positive size, which with the number of
-- its children fits an int, comes to io.EOF, and then has every child once, in their order: it takes
-- at most one call of Readdir more than there are children.
pub read_batches-children :
    (children : List DavFileInfo) (n fuel : ℕ)
    → 0 < n
    → length children + n ≤ int64_max
    → length children < fuel
    → read_batches fuel (pos n) (record { is_dir = true; children = children; read_pos = 0 })
      ≡ some children
read_batches-children children n fuel h fits enough =
    read_from children fuel n 0 h fits (omega arith) (omega arith)
