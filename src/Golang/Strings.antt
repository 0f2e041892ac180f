-- ===== src/Golang/Strings.antt =====
-- Go's `strings` package, as far as the program calls it, on texts of bytes.
use tg_files.Common.{
  ℕ, Text, Bool, true, false, ◌&&◌, [], ◌∷◌, ◌++◌, Option, none, some, ◌≡◌, refl, arith, ◌==◌, leb,
  ◌+◌, if◌then◌else◌, length, drop, ◌||◌,
}

-- strings.HasPrefix(s, p)
unfoldable pub has_prefix : Text → Text → Bool
has_prefix s [] = true
has_prefix [] (d ∷ p) = false
has_prefix (c ∷ s) (d ∷ p) = c == d && has_prefix s p

-- strings.TrimPrefix(s, p)
unfoldable pub trim_prefix : Text → Text → Text
unfolding has_prefix
trim_prefix s p = if has_prefix s p then drop (length p) s else s

-- strings.Contains(s, b) at a text of one byte
unfoldable pub contains_byte : Text → ℕ → Bool
contains_byte [] b = false
contains_byte (c ∷ s) b = if c == b then true else contains_byte s b

-- strings.Cut(s, b) and strings.SplitN(s, b, 2) at one byte: the text before the first `b` and the
-- text behind it, if there is a `b`
unfoldable pub cut : Text → ℕ → Option (Text × Text)
cut [] b = none
cut (c ∷ s) b =
    let rest = cut s b in
    if c == b then some ([], s) else elim rest [ none ↦ none | some (l, r) ↦ some (c ∷ l, r) ]

-- ASCII letters by strings.ToLower. (On other bytes ToLower may act too, by Unicode.)
unfoldable pub lower_byte : ℕ → ℕ
lower_byte c = if leb b'A' c && leb c b'Z' then c + 32 else c

pub has_prefix-append : (p s : Text) → has_prefix (p ++ s) p ≡ true
unfolding has_prefix
has_prefix-append [] s = refl
has_prefix-append (c ∷ p) s = ground (arith, has_prefix-append p s)

drop-length-append : (p s : Text) → drop (length p) (p ++ s) ≡ s
drop-length-append [] s = refl
drop-length-append (c ∷ p) s = drop-length-append p s

pub trim_prefix-append : (p s : Text) → trim_prefix (p ++ s) p ≡ s
unfolding trim_prefix
trim_prefix-append p s = simp (has_prefix-append, drop-length-append)

has_prefix-split : (s p : Text) → has_prefix s p ≡ true → s ≡ p ++ drop (length p) s
unfolding has_prefix
has_prefix-split s [] h = refl
has_prefix-split [] (d ∷ p) h = ground arith
has_prefix-split (c ∷ s) (d ∷ p) h = ground (arith, has_prefix-split s p)

-- What a text begins with, and the rest of it.
pub trim_prefix-split : (s p : Text) → has_prefix s p ≡ true → s ≡ p ++ trim_prefix s p
unfolding trim_prefix
trim_prefix-split s p h = rw h (has_prefix-split s p h)

-- No byte `b` before the cut, and nothing is lost.
pub cut-append : (l r : Text) (b : ℕ) → contains_byte l b ≡ false → cut (l ++ b ∷ r) b ≡ some (l, r)
unfolding cut contains_byte
cut-append [] r b h = ground arith
cut-append (c ∷ l) r b h = ground (arith, cut-append l r b)

pub contains_byte-append :
    (s t : Text) (b : ℕ)
    → contains_byte (s ++ t) b ≡ (if contains_byte s b then true else contains_byte t b)
unfolding contains_byte
contains_byte-append [] t b = refl
contains_byte-append (c ∷ s) t b = ground (arith, contains_byte-append s t b)

-- strings.HasSuffix(s, p) at a text of one byte
unfoldable pub ends_with_byte : Text → ℕ → Bool
ends_with_byte [] b = false
ends_with_byte (c ∷ []) b = c == b
ends_with_byte (c ∷ d ∷ s) b = ends_with_byte (d ∷ s) b

-- a white-space character of ASCII, by strings.TrimSpace
unfoldable pub is_space : ℕ → Bool
is_space c = (leb 9 c && leb c 13) || c == 32

-- The text without the bytes at its start that pass the test, and at its end.
unfoldable pub trim_left : (ℕ → Bool) → Text → Text
trim_left p [] = []
trim_left p (c ∷ s) = let rest = trim_left p s in if p c then rest else c ∷ s

unfoldable pub trim_right : (ℕ → Bool) → Text → Text
trim_right p [] = []
trim_right p (c ∷ s) = elim (trim_right p s) [ [] ↦ if p c then [] else c ∷ [] | d ∷ t ↦ c ∷ d ∷ t ]

-- strings.Trim, for a set of bytes, and strings.TrimSpace on ASCII
unfoldable pub trim : (ℕ → Bool) → Text → Text
unfolding trim_left trim_right
trim p s = trim_right p (trim_left p s)

-- s[:strings.Index(s, d)], if `d` stands somewhere in `s`
unfoldable pub cut_before : Text → Text → Option Text
unfolding has_prefix
cut_before [] d = if has_prefix [] d then some [] else none
cut_before (c ∷ s) d =
    let rest = cut_before s d in
    if has_prefix (c ∷ s) d then some [] else elim rest [ none ↦ none | some l ↦ some (c ∷ l) ]
