-- ===== src/Store/Range/Reassembly.antt =====
-- The selected chunks of a range, downloaded, skipped into and cut off as GetObject does, are the
-- bytes of the range.
use native.Mathlib.Decide.{dec_le}
use tg_files.Common.{
  ◌||◌, ℕ, zero, suc, ◌+◌, ◌-◌, ◌≤◌, ◌<◌, Text, ◌∷◌, [], ◌++◌, ◌≡◌, arith, List, none, some, true,
  false, inl, inr, Bool-cases, ltb, leb, if◌then◌else◌, take, drop, length, length-append, take_all,
  drop_all, take-append, drop-append, length-drop, ◌∙◌, sym, ap,
}
use tg_files.Golang.Int64.{pos, sub64_pos, add64_pos, int64_max}
use tg_files.Store.Range.{
  ByteRange, ChunkRef, SelectedChunk, select_chunk, select_chunks_for_range, copied, copy_all,
}

module _ (content : Text → Text) where
  -- The chunks follow one another from `offset` on, each as long as its file.
  abbrev pub Contiguous : ℕ → List ChunkRef → Type 0
  Contiguous offset [] = Unit
  Contiguous offset (chunk ∷ chunks) =
      (chunk.offset ≡ pos offset)
      × (chunk.size ≡ pos (length (content chunk.file_id)))
      × Contiguous (offset + length (content chunk.file_id)) chunks

  -- The object: its chunks' files one behind the other.
  abbrev pub object_bytes : List ChunkRef → Text
  object_bytes [] = []
  object_bytes (chunk ∷ chunks) = content chunk.file_id ++ object_bytes chunks

-- The bytes `a` to `b` of a text that stands at `offset`.
abbrev window : ℕ → ℕ → ℕ → Text → Text
window a b offset t = drop (a - offset) (take (b + 1 - offset) t)

take_cap : (p q : ℕ) (t : Text) → length t ≤ p → length t ≤ q → take p t ≡ take q t
take_cap p q t h k = take_all p t h ∙ sym (take_all q t k)

drop-take : (k m : ℕ) (t : Text) → drop k (take m t) ≡ take (m - k) (drop k t)
drop-take zero m t = let e : m - 0 ≡ m = omega arith in rw e
drop-take (suc k) zero t = let e : 0 - suc k ≡ 0 = omega arith in rw e
drop-take (suc k) (suc m) [] = sym (take_all (suc m - suc k) [] (omega arith))
drop-take (suc k) (suc m) (c ∷ t) =
    let e : suc m - suc k ≡ m - k = omega arith in rw e (drop-take k m t)

length-take-le : (n : ℕ) (t : Text) → length (take n t) ≤ n
length-take-le zero t = omega arith
length-take-le (suc n) [] = omega arith
length-take-le (suc n) (c ∷ t) = omega (arith, length-take-le n t)

length_take_le_length : (n : ℕ) (t : Text) → length (take n t) ≤ length t
length_take_le_length zero t = omega arith
length_take_le_length (suc n) [] = omega arith
length_take_le_length (suc n) (c ∷ t) = omega (arith, length_take_le_length n t)

-- What `drop` still has to drop behind the part that comes first.
drop_rest :
    (k m : ℕ) (s t : Text)
    → drop (k - length (take m s)) (take (m - length s) t)
      ≡ drop (k - length s) (take (m - length s) t)
drop_rest k m s t = elim (dec_le (length s) m) [
  | yes whole ↦ rw (take_all m s whole)
  | no cut ↦
      let e : m - length s ≡ 0 = omega arith in
      rw e (
        drop_all (k - length (take m s)) [] (omega arith)
        ∙ sym (drop_all (k - length s) [] (omega arith)))
]

window-append :
    (a b offset : ℕ) (s t : Text)
    → window a b offset (s ++ t) ≡ window a b offset s ++ window a b (offset + length s) t
window-append a b offset s t =
    let k = a - offset in
    let m = b + 1 - offset in
    let n = length s in
    let e : a - (offset + n) ≡ k - n = omega arith in
    let f : b + 1 - (offset + n) ≡ m - n = omega arith in
    rw (e, f, take-append m s t, drop-append k (take m s) (take (m - n) t))
      (ap (λ u. drop k (take m s) ++ u) (drop_rest k m s t))

-- How many bytes the overlap of a chunk and a range has.
abbrev overlap : ℕ → ℕ → ℕ → ℕ → ℕ
overlap a b offset n =
    (if ltb b (offset + n - 1) then b else offset + n - 1)
    + 1
    - (if ltb offset a then a else offset)

module _ (chunk : ChunkRef) (a b offset n : ℕ) (at_offset : chunk.offset ≡ pos offset)
    (of_size : chunk.size ≡ pos n) (ordered : a ≤ b) (fits : b ≤ int64_max)
    (total : offset + n ≤ int64_max) where
  apart :
      leb n 0 || ltb (offset + n - 1) a || ltb b offset ≡ true
      → select_chunk chunk (record { start = pos a; end = pos b }) ≡ none
  unfolding select_chunk
  apart h = ground (arith, add64_pos offset n, sub64_pos (offset + n) 1)

  overlapping :
      leb n 0 || ltb (offset + n - 1) a || ltb b offset ≡ false
      → select_chunk chunk (record { start = pos a; end = pos b })
        ≡ some
            (record { chunk = chunk; skip = pos (a - offset); take = pos (overlap a b offset n) })
  unfolding select_chunk
  overlapping h =
      let last = if ltb b (offset + n - 1) then b else offset + n - 1 in
      let first = if ltb offset a then a else offset in
      ground (
        arith,
        add64_pos offset n,
        sub64_pos (offset + n) 1,
        sub64_pos first offset,
        sub64_pos last first,
        add64_pos (last - first) 1,
      )

pub copied-pos :
    (chunk : ChunkRef) (k m : ℕ) (t : Text)
    → copied (record { chunk = chunk; skip = pos k; take = pos m }) t ≡ take m (drop k t)
unfolding copied
copied-pos chunk zero m t = ground arith
copied-pos chunk (suc k) m t = ground arith

-- Of a chunk `n` bytes long, the window is what `copied` leaves of it.
copied-window :
    (chunk : ChunkRef) (a b offset : ℕ) (t : Text)
    → a ≤ b
    → a < offset + length t
    → offset ≤ b
    → copied
        (record {
          chunk = chunk;
          skip = pos (a - offset);
          take = pos (overlap a b offset (length t));
        })
        t
      ≡ window a b offset t
copied-window chunk a b offset t h p q =
    let k = a - offset in
    let m = overlap a b offset (length t) in
    let e : length (drop k t) ≡ length t - k = length-drop k t in
    let same : take m (drop k t) ≡ take (b + 1 - offset - k) (drop k t) =
      elim (Bool-cases (ltb b (offset + length t - 1))) [
        | inl inside ↦ ap (λ i. take i (drop k t)) (ground arith)
        | inr beyond ↦ take_cap m (b + 1 - offset - k) (drop k t) (ground arith) (ground arith)
      ] in
    copied-pos chunk k m t ∙ same ∙ sym (drop-take k (b + 1 - offset) t)

outside_window :
    (a b offset : ℕ) (t : Text)
    → leb (length t) 0 || ltb (offset + length t - 1) a || ltb b offset ≡ true
    → window a b offset t ≡ []
outside_window a b offset t h =
    drop_all (a - offset) (take (b + 1 - offset) t)
      (ground (arith, length-take-le (b + 1 - offset) t, length_take_le_length (b + 1 - offset) t))

module _ (chunk : ChunkRef) (chunks : List ChunkRef) (r : ByteRange) where
  select_skips :
      select_chunk chunk r ≡ none
      → select_chunks_for_range (chunk ∷ chunks) r ≡ select_chunks_for_range chunks r
  unfolding select_chunks_for_range
  select_skips e = ground arith

  select_takes :
      (s : SelectedChunk)
      → select_chunk chunk r ≡ some s
      → select_chunks_for_range (chunk ∷ chunks) r ≡ s ∷ select_chunks_for_range chunks r
  unfolding select_chunks_for_range
  select_takes s e = ground arith

copy_all-select :
    (content : Text → Text) (chunks : List ChunkRef) (a b offset : ℕ)
    → a ≤ b
    → b ≤ int64_max
    → offset + length (object_bytes content chunks) ≤ int64_max
    → Contiguous content offset chunks
    → copy_all content (select_chunks_for_range chunks (record { start = pos a; end = pos b }))
      ≡ window a b offset (object_bytes content chunks)
unfolding select_chunks_for_range copy_all
copy_all-select content [] a b offset h fits total _ =
    sym (outside_window a b offset [] (ground arith))
copy_all-select content (chunk ∷ chunks) a b offset h fits total (at_offset, of_size, rest) =
    let t = content chunk.file_id in
    let n = length t in
    let u = object_bytes content chunks in
    let size : length (t ++ u) ≡ n + length u = length-append t u in
    let ih = copy_all-select content chunks a b (offset + n) h fits (omega arith) rest in
    let split = window-append a b offset t u in
    let r : ByteRange = record { start = pos a; end = pos b } in
    elim (Bool-cases (leb n 0 || ltb (offset + n - 1) a || ltb b offset)) [
      | inl out ↦
          rw
            (select_skips chunk chunks r
              (apart chunk a b offset n at_offset of_size h fits (omega arith) out))
            (ih
              ∙ sym (
                  split
                  ∙ ap (λ w. w ++ window a b (offset + n) u) (outside_window a b offset t out)))
      | inr meets ↦
          rw
            (select_takes chunk chunks r _
              (overlapping chunk a b offset n at_offset of_size h fits (omega arith) meets))
            (rw (copied-window chunk a b offset t h (ground arith) (ground arith), ih) (sym split))
    ]

-- For an object whose chunks follow one another without a gap, with every size that of its file and
-- the sum at most the largest int64, and a range `a` to `b` inside of it, the bytes that GetObject
-- copies are exactly the bytes `a` to `b` of the object.
pub copy_all-select_chunks_for_range :
    (content : Text → Text) (chunks : List ChunkRef) (a b : ℕ)
    → a ≤ b
    → b < length (object_bytes content chunks)
    → length (object_bytes content chunks) ≤ int64_max
    → Contiguous content 0 chunks
    → copy_all content (select_chunks_for_range chunks (record { start = pos a; end = pos b }))
      ≡ take (b + 1 - a) (drop a (object_bytes content chunks))
copy_all-select_chunks_for_range content chunks a b h p q c =
    let u = object_bytes content chunks in
    let e : a - 0 ≡ a = omega arith in
    let f : b + 1 - 0 ≡ b + 1 = omega arith in
    copy_all-select content chunks a b 0 h (omega arith) (omega arith) c
    ∙ (rw (e, f) (drop-take a (b + 1) u))
