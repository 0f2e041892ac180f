-- ===== src/S3Api/SigV4/Parsing.antt =====
-- parseSigV4Authorization reads the header that a client writes.
use tg_files.Common.{
  ℕ, Text, Bool, true, false, not, ◌||◌, List, [], ◌∷◌, ◌++◌, ◌≡◌, refl, arith, ap, ◌∙◌,
  if◌then◌else◌, if_false, All, ◌==◌,
}
use tg_files.Golang.Strings.{
  trim, trim_left, trim_right, is_space, contains_byte, contains_byte-append,
}
use tg_files.Golang.Splitting.{join, AreWithout}

-- A byte that may stand in a field: no white space and none of the separators.
unfoldable pub is_plain : ℕ → Bool
unfolding is_space
is_plain c = not (is_space c || c == b',' || c == b'/' || c == b';')

abbrev pub IsPlain : Text → Type 0
IsPlain = All (λ c. is_plain c ≡ true)

pub IsPlain-without :
    (b : ℕ) (s : Text) → is_plain b ≡ false → IsPlain s → contains_byte s b ≡ false
unfolding contains_byte
IsPlain-without b [] h p = refl
IsPlain-without b (c ∷ s) h (pc, ps) = ground (arith, IsPlain-without b s)

-- A byte with no white space.
abbrev pub IsTight : Text → Type 0
IsTight = All (λ c. is_space c ≡ false)

pub IsPlain-IsTight : (s : Text) → IsPlain s → IsTight s
IsPlain-IsTight [] p = tt
IsPlain-IsTight (c ∷ s) (pc, ps) = (unfold is_plain in ground arith, IsPlain-IsTight s ps)

pub All-append : (P : ℕ → Type 0) (s t : Text) → All P s → All P t → All P (s ++ t)
All-append P [] t p q = q
All-append P (c ∷ s) t (pc, ps) q = (pc, All-append P s t ps q)

trim_left_tight : (s : Text) → IsTight s → trim_left is_space s ≡ s
unfolding trim_left
trim_left_tight [] h = refl
trim_left_tight (c ∷ s) (hc, hs) = rw hc refl

trim_right_tight : (s : Text) → IsTight s → trim_right is_space s ≡ s
unfolding trim_right
trim_right_tight [] h = refl
trim_right_tight (c ∷ []) (hc, hs) = rw hc refl
trim_right_tight (c ∷ d ∷ s) (hc, hs) = rw (trim_right_tight (d ∷ s) hs) refl

pub trim_tight : (s : Text) → IsTight s → trim is_space s ≡ s
unfolding trim
trim_tight s h = ap (trim_right is_space) (trim_left_tight s h) ∙ trim_right_tight s h

pub trim_indented : (s : Text) → IsTight s → trim is_space (b' ' ∷ s) ≡ s
unfolding trim trim_left is_space
trim_indented s h = ap (trim_right is_space) (trim_left_tight s h) ∙ trim_right_tight s h

-- The words joined by a byte that is no white space.
pub IsTight-join :
    (b : ℕ) (w : Text) (ws : List Text)
    → is_space b ≡ false
    → IsTight w
    → All IsTight ws
    → IsTight (join (w ∷ ws) (b ∷ []))
unfolding join
IsTight-join b w [] hb h hs = h
IsTight-join b w (v ∷ ws) hb h (hv, hs) =
    All-append _ w (b ∷ join (v ∷ ws) (b ∷ [])) h (hb, IsTight-join b v ws hb hv hs)

-- The test, for literals.
unfoldable pub is_tight : Text → Bool
unfolding is_space
is_tight [] = true
is_tight (c ∷ s) = if is_space c then false else is_tight s

pub is_tight-IsTight : (s : Text) → is_tight s ≡ true → IsTight s
unfolding is_tight
is_tight-IsTight [] h = tt
is_tight-IsTight (c ∷ s) h = (ground arith, is_tight-IsTight s (ground arith))

other_byte : (b d : ℕ) (s : Text) → (d == b) ≡ false → contains_byte (d ∷ s) b ≡ contains_byte s b
unfolding contains_byte
other_byte b d s h = if_false _ _ h

-- The words joined by another byte.
pub contains_byte-join :
    (b d : ℕ) (w : Text) (ws : List Text)
    → (d == b) ≡ false
    → contains_byte w b ≡ false
    → AreWithout b ws
    → contains_byte (join (w ∷ ws) (d ∷ [])) b ≡ false
unfolding join
contains_byte-join b d w [] hb h hs = h
contains_byte-join b d w (v ∷ ws) hb h (hv, hs) =
    contains_byte-append w (d ∷ join (v ∷ ws) (d ∷ [])) b
    ∙ if_false _ _ h
    ∙ other_byte b d (join (v ∷ ws) (d ∷ [])) hb
    ∙ contains_byte-join b d v ws hb hv hs
