-- ===== src/Store/Objects/Streams.antt =====
-- store/store.go: the goroutine of GetObject, whose downloads may fail at every step.
use tg_files.Common.{
  Result-cases, ℕ, Text, Bool, true, false, not, ◌&&◌, List, [], ◌∷◌, ◌++◌, Option, none, some, ◌≡◌,
  refl, arith, if◌then◌else◌, Result, ok, err, length, ltb, drop, inl, inr,
}
use tg_files.Golang.Int64.{pos, pos_part, ltb_ℤ, leb_ℤ}
use tg_files.Metadata.Types.{Object}
use tg_files.Store.Types.{Failure}
use tg_files.Store.Range.{ByteRange, SelectedChunk, copy_all}
use tg_files.Store.Range
use tg_files.Store.Multipart.{ObjectStore}
use tg_files.Store.Objects.{get_object, read_object}

-- The reader of a file: the bytes that it gives, whether an error comes behind them in place of the
-- end of the file, and whether Close returns an error.
pub record Download : Type 0 where
  pub bytes : Text
  pub breaks : Bool
  pub close_fails : Bool

-- io.Copy of an io.LimitReader: does it return an error? It reads on only below its limit.
abbrev pub is_broken : Bool → ℕ → Text → Bool
is_broken breaks limit bytes = breaks && ltb (length bytes) limit

-- One round of the loop: the bytes that it writes, and whether the next round follows.
unfoldable pub copy_chunk : SelectedChunk → Download → Text × Bool
unfolding Range.copied
copy_chunk selected file =
    let skip = if ltb_ℤ (pos 0) selected.skip then pos_part selected.skip else 0 in
    let rest = drop skip file.bytes in
    let stops =
      if leb_ℤ (pos 0) selected.take
      then is_broken file.breaks (pos_part selected.take) rest
      else file.breaks in
    if is_broken file.breaks skip file.bytes
    then ([], false)
    else (Range.copied selected file.bytes, not stops && not file.close_fails)

-- The bytes that a reader of the body gets, and whether they end with the end of the body and not
-- with an error.
unfoldable pub stream : (Text → Option Download) → List SelectedChunk → Text × Bool
unfolding copy_chunk
stream download [] = ([], true)
stream download (selected ∷ rest) =
    let later = stream download rest in
    elim (download selected.chunk.file_id) [
      | none ↦ ([], false)
      | some file ↦
          let (bytes, goes_on) = copy_chunk selected file in
          if goes_on then (bytes ++ later.0, later.1) else (bytes, false)
    ]

-- GetObject with its goroutine, whatever Telegram does.
unfoldable pub stream_object :
    (Text → Option Download)
    → Text
    → Text
    → Option ByteRange
    → ObjectStore
    → Result Failure (Object × Text × Bool) × ObjectStore
unfolding get_object stream
stream_object download bucket key range s =
    let (r, s') = get_object bucket key range s in
    let result : Result Failure (Object × Text × Bool) = elim r [
      | err e ↦ err e
      | ok found ↦ ok (found.0, (stream download found.1).0, (stream download found.1).1)
    ] in
    (result, s')

-- Every file is there and is read and closed without an error.
abbrev pub unbroken : (Text → Text) → Text → Option Download
unbroken content id = some (record { bytes = content id; breaks = false; close_fails = false })

pub stream-unbroken :
    (content : Text → Text) (chunks : List SelectedChunk)
    → stream (unbroken content) chunks ≡ (copy_all content chunks, true)
unfolding stream copy_chunk copy_all
stream-unbroken content [] = refl
stream-unbroken content (selected ∷ rest) = ground (arith, stream-unbroken content rest)

-- With these files, what the reader gets is what read_object says, without an error.
pub stream_object-read_object :
    (content : Text → Text) (bucket key : Text) (range : Option ByteRange) (s : ObjectStore)
    → stream_object (unbroken content) bucket key range s ≡ (
      (elim (read_object content bucket key range s).0 [
        | err e ↦ err e
        | ok found ↦ ok (found.0, found.1, true)
      ]),
      (read_object content bucket key range s).1,
    )
unfolding stream_object read_object
stream_object-read_object content bucket key range s =
    elim (Result-cases (get_object bucket key range s).0) [
      | inl (e, fails) ↦ rw fails refl
      | inr (found, got) ↦ rw (got, stream-unbroken content found.1) refl
    ]
