-- ===== src/Store/Range/Parsing.antt =====
-- What ParseRange accepts, and what it returns.
use tg_files.Common.{ℕ, ◌≤◌, ◌<◌, Text, ◌≡◌, arith, ok, Option-cases, inl, inr, codes}
use tg_files.Golang.Int64.{pos, sub64, int64_max, pos_part, neg_part, ℤ, negsuc, sub64_pos}
use tg_files.Store.Range.{
  ByteRange, end_range, suffix_range, start_range, spec_range, parse_range, parse_int, cut,
  trim_prefix,
}

-- A range that names bytes of an object of `n` bytes, in order.
abbrev pub WithinObject : ByteRange → ℕ → Type 0
WithinObject r n =
    (neg_part r.start ≡ 0)
    × (neg_part r.end ≡ 0)
    × (pos_part r.start ≤ pos_part r.end)
    × (pos_part r.end < n)

suffix_range-WithinObject :
    (digits : Text) (n : ℕ) (r : ByteRange)
    → 0 < n
    → n ≤ int64_max
    → suffix_range digits (pos n) ≡ ok r
    → WithinObject r n
unfolding suffix_range sub64
suffix_range-WithinObject digits n r h fits e = ground arith

end_range-WithinObject :
    (a : ℕ) (digits : Text) (n : ℕ) (r : ByteRange)
    → a < n
    → n ≤ int64_max
    → end_range (pos a) digits (pos n) ≡ ok r
    → WithinObject r n
unfolding end_range sub64
end_range-WithinObject a digits n r h fits e = ground arith

start_range-WithinObject :
    (first last : Text) (n : ℕ) (r : ByteRange)
    → n ≤ int64_max
    → start_range first last (pos n) ≡ ok r
    → WithinObject r n
unfolding start_range
start_range-WithinObject first last n r fits e = elim (Option-cases (parse_int first)) [
  | inl bad ↦ ground arith
  | inr (pos a, good) ↦ ground (arith, end_range-WithinObject a last n r)
  | inr (negsuc a, good) ↦ ground arith
]

spec_range-WithinObject :
    (spec : Text) (n : ℕ) (r : ByteRange)
    → 0 < n
    → n ≤ int64_max
    → spec_range spec (pos n) ≡ ok r
    → WithinObject r n
unfolding spec_range
spec_range-WithinObject spec n r h fits e = elim (Option-cases (cut spec b'-')) [
  | inl bad ↦ ground arith
  | inr ((first, last), good) ↦
      ground (arith, suffix_range-WithinObject last n r, start_range-WithinObject first last n r)
]

-- A range that ParseRange accepts for a size of an int64 starts and ends inside of the object, and
-- its end is not before its start; at a size that is not positive it accepts nothing.
pub parse_range-WithinObject :
    (header : Text) (size : ℤ) (r : ByteRange)
    → pos_part size ≤ int64_max
    → parse_range header size ≡ ok r
    → WithinObject r (pos_part size)
unfolding parse_range
parse_range-WithinObject header (negsuc n) r fits e = ground arith
parse_range-WithinObject header (pos n) r fits e =
    let spec = trim_prefix header (codes "bytes=") in
    ground (arith, sub64_pos n 1, spec_range-WithinObject spec n r)
