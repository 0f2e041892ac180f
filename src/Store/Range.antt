-- ===== src/Store/Range.antt =====
-- store/range.go: HTTP byte ranges, and the stored chunks that a range reads.
pub mod Parsing
pub mod Specs
pub mod Reassembly
mod Tests
use tg_files.Common.{
  ℕ, ◌+◌, ◌-◌, Text, codes, Bool, ◌||◌, not, List, [], ◌∷◌, ◌++◌, Option, none, some, text_eq,
  Result, ok, err, if◌then◌else◌, take, drop,
}
use tg_files.Golang.Int64.{ℤ, pos, pos_part, ltb_ℤ, leb_ℤ, add64, sub64}
use tg_files.Golang.Strings.{has_prefix, trim_prefix, contains_byte, cut}
use tg_files.Golang.Strconv.{parse_int}
use tg_files.Store.Types.{StoreError, invalid_range}

pub record ByteRange : Type 0 where
  pub start : ℤ
  pub end : ℤ

-- (ByteRange).Length
unfoldable pub range_length : ByteRange → ℤ
range_length r =
    if ltb_ℤ r.start (pos 0) || ltb_ℤ r.end r.start
    then pos 0
    else add64 (sub64 r.end r.start) (pos 1)

-- "-n": the last n bytes
suffix_range : Text → ℤ → Result StoreError ByteRange
suffix_range digits size = elim (parse_int digits) [
  | none ↦ err invalid_range
  | some suffix ↦
      if leb_ℤ suffix (pos 0)
      then err invalid_range
      else ok (record {
        start = sub64 size (if ltb_ℤ size suffix then size else suffix);
        end = sub64 size (pos 1);
      })
]

-- "start-" and "start-end", behind the tests on `start`
end_range : ℤ → Text → ℤ → Result StoreError ByteRange
end_range start digits size =
    if text_eq digits []
    then ok (record { start = start; end = sub64 size (pos 1) })
    else elim (parse_int digits) [
      | none ↦ err invalid_range
      | some end ↦
          if ltb_ℤ end start
          then err invalid_range
          else ok
              (record { start = start; end = if leb_ℤ size end then sub64 size (pos 1) else end })
    ]

start_range : Text → Text → ℤ → Result StoreError ByteRange
start_range first last size = elim (parse_int first) [
  | none ↦ err invalid_range
  | some start ↦
      if ltb_ℤ start (pos 0) || leb_ℤ size start
      then err invalid_range
      else end_range start last size
]

-- the text behind "bytes="
spec_range : Text → ℤ → Result StoreError ByteRange
spec_range spec size =
    if text_eq spec [] || contains_byte spec b',' then err invalid_range else elim (cut spec b'-') [
      | none ↦ err invalid_range
      | some (first, last) ↦
          if text_eq first [] then suffix_range last size else start_range first last size
    ]

unfoldable pub parse_range : Text → ℤ → Result StoreError ByteRange
unfolding spec_range start_range end_range suffix_range
parse_range header size =
    if text_eq header []
    then (if leb_ℤ size (pos 0)
        then err invalid_range
        else ok (record { start = pos 0; end = sub64 size (pos 1) }))
    else if leb_ℤ size (pos 0)
    then err invalid_range
    else if not (has_prefix header (codes "bytes="))
    then err invalid_range
    else spec_range (trim_prefix header (codes "bytes=")) size

pub record ChunkRef : Type 0 where
  pub part : ℤ
  pub file_id : Text
  pub offset : ℤ
  pub size : ℤ

pub record SelectedChunk : Type 0 where
  pub chunk : ChunkRef
  pub skip : ℤ
  pub take : ℤ

abbrev min_int64 : ℤ → ℤ → ℤ
min_int64 a b = if ltb_ℤ a b then a else b

abbrev max_int64 : ℤ → ℤ → ℤ
max_int64 a b = if ltb_ℤ b a then a else b

-- One round of the loop of SelectChunksForRange; `none` is `continue`.
select_chunk : ChunkRef → ByteRange → Option SelectedChunk
select_chunk chunk r =
    let chunk_start = chunk.offset in
    let chunk_end = sub64 (add64 chunk.offset chunk.size) (pos 1) in
    let overlap_start = max_int64 chunk_start r.start in
    let overlap_end = min_int64 chunk_end r.end in
    if leb_ℤ chunk.size (pos 0) || ltb_ℤ chunk_end r.start || ltb_ℤ r.end chunk_start
    then none
    else some (record {
      chunk = chunk;
      skip = sub64 overlap_start chunk_start;
      take = add64 (sub64 overlap_end overlap_start) (pos 1);
    })

unfoldable pub select_chunks_for_range : List ChunkRef → ByteRange → List SelectedChunk
unfolding select_chunk
select_chunks_for_range [] r = []
select_chunks_for_range (chunk ∷ chunks) r =
    let rest = select_chunks_for_range chunks r in
    elim (select_chunk chunk r) [ none ↦ rest | some selected ↦ selected ∷ rest ]

-- What the goroutine of GetObject copies of a downloaded file: it drops `Skip` bytes, if there are
-- any to skip, and copies at most `Take` bytes of the rest, or all of it if `Take` is negative.
unfoldable pub copied : SelectedChunk → Text → Text
copied selected content =
    let rest =
      if ltb_ℤ (pos 0) selected.skip then drop (pos_part selected.skip) content else content in
    if leb_ℤ (pos 0) selected.take then take (pos_part selected.take) rest else rest

-- The bytes that the goroutine writes, with the content of every file, when no download fails.
unfoldable pub copy_all : (Text → Text) → List SelectedChunk → Text
unfolding copied
copy_all content [] = []
copy_all content (selected ∷ rest) =
    copied selected (content selected.chunk.file_id) ++ copy_all content rest
