-- ===== src/Store/Range/Specs.antt =====
-- The three forms of a byte range of RFC 9110, what they mean, and ParseRange on their prints.
use tg_files.Common.{
  ℕ, ◌-◌, ◌≤◌, ◌<◌, Text, codes, ◌∷◌, [], ◌++◌, ◌≡◌, arith, Result, ok, err, refl, false, ltb, leb,
  if◌then◌else◌, text_eq, ◌&&◌, inl, text_eq_refl,
}
use tg_files.Golang.Int64.{ℤ, pos, sub64_pos, int64_max}
use tg_files.Golang.Strings.{
  contains_byte, contains_byte-append, cut-append, has_prefix-append, trim_prefix-append,
}
use tg_files.Golang.Strconv.{itoa, itoa-head, parse_int-itoa, contains_byte-itoa}
use tg_files.Store.Types.{StoreError, invalid_range}
use tg_files.Store.Range.{ByteRange, parse_range, spec_range, start_range, end_range, suffix_range}

pub data RangeSpec : Type 0 where
  -- "a-b", "a-" and "-k"
  first_last : ℕ → ℕ → RangeSpec
  from : ℕ → RangeSpec
  suffix : ℕ → RangeSpec

abbrev pub print_spec : RangeSpec → Text
print_spec (first_last a b) = itoa a ++ b'-' ∷ itoa b
print_spec (from a) = itoa a ++ b'-' ∷ []
print_spec (suffix k) = b'-' ∷ itoa k

abbrev pub print_header : RangeSpec → Text
print_header spec = codes "bytes=" ++ print_spec spec

-- The numbers of a spec fit an int64.
abbrev pub Fits : RangeSpec → Type 0
Fits (first_last a b) = (a ≤ int64_max) × (b ≤ int64_max)
Fits (from a) = a ≤ int64_max
Fits (suffix k) = k ≤ int64_max

abbrev found : ℕ → ℕ → Result StoreError ByteRange
found a b = ok (record { start = pos a; end = pos b })

-- The first and the last byte that a spec names in an object of `n` bytes.
abbrev pub meaning : RangeSpec → ℕ → Result StoreError ByteRange
meaning (first_last a b) n =
    if leb a b && ltb a n then found a (if ltb b n then b else n - 1) else err invalid_range
meaning (from a) n = if ltb a n then found a (n - 1) else err invalid_range
meaning (suffix k) n = if ltb 0 k && ltb 0 n then found (n - k) (n - 1) else err invalid_range

parse_range-prefix :
    (t : Text) (n : ℕ)
    → parse_range (codes "bytes=" ++ t) (pos n)
      ≡ (if leb n 0 then err invalid_range else spec_range t (pos n))
unfolding parse_range text_eq
parse_range-prefix t n =
    let scheme = codes "bytes=" in
    ground (arith, has_prefix-append scheme t, trim_prefix-append scheme t)

text_eq-itoa : (n : ℕ) → text_eq (itoa n) [] ≡ false
unfolding text_eq
text_eq-itoa n = let (c, s, e, lo, hi) = itoa-head n in rw e

text_eq_cons : (s : Text) (c : ℕ) (t : Text) → text_eq (s ++ c ∷ t) [] ≡ false
unfolding text_eq
text_eq_cons [] c t = refl
text_eq_cons (d ∷ s) c t = refl

spec_range-cut :
    (first last : Text) (size : ℤ)
    → contains_byte first b',' ≡ false
    → contains_byte first b'-' ≡ false
    → contains_byte last b',' ≡ false
    → spec_range (first ++ b'-' ∷ last) size
      ≡ (if text_eq first [] then suffix_range last size else start_range first last size)
unfolding spec_range contains_byte
spec_range-cut first last size p q r = ground (
  arith,
  text_eq_cons first b'-' last,
  contains_byte-append first (b'-' ∷ last) b',',
  cut-append first last b'-' q,
)

start_range-itoa :
    (a n : ℕ) (last : Text)
    → a ≤ int64_max
    → start_range (itoa a) last (pos n)
      ≡ (if ltb a n then end_range (pos a) last (pos n) else err invalid_range)
unfolding start_range
start_range-itoa a n last h = ground (arith, parse_int-itoa a h)

end_range-itoa :
    (a b n : ℕ)
    → b ≤ int64_max
    → n ≤ int64_max
    → a < n
    → end_range (pos a) (itoa b) (pos n)
      ≡ (if leb a b then found a (if ltb b n then b else n - 1) else err invalid_range)
unfolding end_range
end_range-itoa a b n h k lt = ground (arith, text_eq-itoa b, parse_int-itoa b h, sub64_pos n 1)

end_range-nil : (a n : ℕ) → n ≤ int64_max → a < n → end_range (pos a) [] (pos n) ≡ found a (n - 1)
unfolding end_range text_eq
end_range-nil a n h lt = ground (arith, sub64_pos n 1)

suffix_range-itoa :
    (k n : ℕ)
    → k ≤ int64_max
    → n ≤ int64_max
    → 0 < n
    → suffix_range (itoa k) (pos n) ≡ (if ltb 0 k then found (n - k) (n - 1) else err invalid_range)
unfolding suffix_range
suffix_range-itoa k n h g lt =
    ground (arith, parse_int-itoa k h, sub64_pos n 1, sub64_pos n k, sub64_pos n n)

no_comma : (n : ℕ) → contains_byte (itoa n) b',' ≡ false
no_comma n = contains_byte-itoa n b',' (inl (omega arith))

no_dash : (n : ℕ) → contains_byte (itoa n) b'-' ≡ false
no_dash n = contains_byte-itoa n b'-' (inl (omega arith))

no_comma_nil : contains_byte [] b',' ≡ false
unfolding contains_byte
no_comma_nil = refl

no_dash_nil : contains_byte [] b'-' ≡ false
unfolding contains_byte
no_dash_nil = refl

-- ParseRange reads the print of every range spec, its numbers and the size at most the largest
-- int64, as its meaning, refusals included.
pub parse_range-print_header :
    (spec : RangeSpec) (n : ℕ)
    → Fits spec
    → n ≤ int64_max
    → parse_range (print_header spec) (pos n) ≡ meaning spec n
parse_range-print_header (first_last a b) n (fa, fb) h = ground (
  arith,
  parse_range-prefix (print_spec (first_last a b)) n,
  spec_range-cut (itoa a) (itoa b) (pos n) (no_comma a) (no_dash a) (no_comma b),
  text_eq-itoa a,
  start_range-itoa a n (itoa b) fa,
  end_range-itoa a b n fb h,
)
parse_range-print_header (from a) n fa h = ground (
  arith,
  parse_range-prefix (print_spec (from a)) n,
  spec_range-cut (itoa a) [] (pos n) (no_comma a) (no_dash a) no_comma_nil,
  text_eq-itoa a,
  start_range-itoa a n [] fa,
  end_range-nil a n h,
)
parse_range-print_header (suffix k) n fk h = ground (
  arith,
  parse_range-prefix (print_spec (suffix k)) n,
  spec_range-cut [] (itoa k) (pos n) no_comma_nil no_dash_nil (no_comma k),
  text_eq_refl [],
  suffix_range-itoa k n fk h,
)
