-- ===== src/Golang/Strconv.antt =====
-- Go's `strconv`: integers in decimal.
use tg_files.Common.{
  ◌⊎◌, ℕ, zero, suc, ◌+◌, ◌-◌, ◌*◌, ◌/◌, ◌%◌, ◌≤◌, ◌<◌, Text, Bool, true, false, ◌&&◌, [], ◌∷◌,
  Option, none, some, ◌≡◌, arith, ◌==◌, ltb, leb, if◌then◌else◌, Bool-cases, inl, inr, sym, subst,
}
use tg_files.Golang.Strings.{contains_byte}
use tg_files.Golang.Int64.{ℤ, pos, negsuc, int64_max}

-- The value of a run of decimal digits behind `acc`; `none` at any other byte.
digits_value : Text → ℕ → Option ℕ
digits_value [] acc = some acc
digits_value (c ∷ s) acc =
    let rest = digits_value s (acc * 10 + (c - b'0')) in
    if leb b'0' c && leb c b'9' then rest else none

-- A magnitude and its sign, unless it is outside of int64.
signed : Bool → ℕ → Option ℤ
signed negative zero = some (pos zero)
signed false (suc n) = if ltb int64_max (suc n) then none else some (pos (suc n))
signed true (suc n) = if ltb int64_max n then none else some (negsuc n)

magnitude : Bool → Text → Option ℤ
magnitude negative [] = none
magnitude negative (c ∷ s) = elim (digits_value (c ∷ s) 0) [
  | none ↦ none
  | some n ↦ signed negative n
]

-- strconv.ParseInt(s, 10, 64); `none` is any error. A sign of either kind may stand in front.
unfoldable pub parse_int : Text → Option ℤ
unfolding magnitude signed digits_value
parse_int [] = none
parse_int (c ∷ s) =
    if c == b'+'
    then magnitude false s
    else if c == b'-'
    then magnitude true s
    else magnitude false (c ∷ s)

emit : ℕ → ℕ → Text → Text
emit zero n out = out
emit (suc fuel) n out =
    let rest = emit fuel (n / 10) ((b'0' + n % 10) ∷ out) in
    if ltb n 10 then (b'0' + n) ∷ out else rest

-- strconv.Itoa and FormatInt at a number that is not negative; `n + 1` rounds are enough, as each
-- round divides by ten.
unfoldable pub itoa : ℕ → Text
unfolding emit
itoa n = emit (suc n) n []

digits_value-emit :
    (fuel n : ℕ) (out : Text) → n < fuel → digits_value (emit fuel n out) 0 ≡ digits_value out n
unfolding emit digits_value
digits_value-emit zero n out h = elim h [ ]
digits_value-emit (suc fuel) n out h =
    ground (arith, digits_value-emit fuel (n / 10) ((b'0' + n % 10) ∷ out))

digits_value-itoa : (n : ℕ) → digits_value (itoa n) 0 ≡ some n
unfolding itoa digits_value
digits_value-itoa n = digits_value-emit (suc n) n [] (omega arith)

-- The first byte of a number's print is a digit.
emit-head :
    (fuel n : ℕ) (out : Text)
    → n < fuel
    → (c : ℕ) × (s : Text) × (emit fuel n out ≡ c ∷ s) × (b'0' ≤ c) × (c ≤ b'9')
unfolding emit
emit-head zero n out h = elim h [ ]
emit-head (suc fuel) n out h = elim (Bool-cases (ltb n 10)) [
  | inl small ↦ (b'0' + n, out, rw small, omega arith, ground arith)
  | inr large ↦
      let (c, s, e, lo, hi) = emit-head fuel (n / 10) ((b'0' + n % 10) ∷ out) (ground arith) in
      (c, s, rw large e, lo, hi)
]

parse_int_digit :
    (c : ℕ) (s : Text) (n : ℕ)
    → b'0' ≤ c
    → c ≤ b'9'
    → n ≤ int64_max
    → digits_value (c ∷ s) 0 ≡ some n
    → parse_int (c ∷ s) ≡ some (pos n)
unfolding magnitude signed parse_int
parse_int_digit c s zero lo hi fits e = ground arith
parse_int_digit c s (suc n) lo hi fits e = ground arith

pub itoa-head : (n : ℕ) → (c : ℕ) × (s : Text) × (itoa n ≡ c ∷ s) × (b'0' ≤ c) × (c ≤ b'9')
unfolding itoa
itoa-head n = emit-head (suc n) n [] (omega arith)

-- Every int64 that is not negative is read back from its print.
pub parse_int-itoa : (n : ℕ) → n ≤ int64_max → parse_int (itoa n) ≡ some (pos n)
parse_int-itoa n h =
    let (c, s, e, lo, hi) = itoa-head n in
    subst (λ t. parse_int t ≡ some (pos n)) (sym e)
      (parse_int_digit c s n lo hi h
        (subst (λ t. digits_value t 0 ≡ some n) e (digits_value-itoa n)))

contains_byte-emit :
    (fuel n : ℕ) (out : Text) (b : ℕ)
    → n < fuel
    → (b < b'0') ⊎ (b'9' < b)
    → contains_byte (emit fuel n out) b ≡ contains_byte out b
unfolding emit contains_byte
contains_byte-emit zero n out b h no_digit = elim h [ ]
contains_byte-emit (suc fuel) n out b h no_digit =
    ground (arith, contains_byte-emit fuel (n / 10) ((b'0' + n % 10) ∷ out) b)

-- A print holds digits only.
pub contains_byte-itoa : (n b : ℕ) → (b < b'0') ⊎ (b'9' < b) → contains_byte (itoa n) b ≡ false
unfolding itoa contains_byte
contains_byte-itoa n b no_digit = contains_byte-emit (suc n) n [] b (omega arith) no_digit
