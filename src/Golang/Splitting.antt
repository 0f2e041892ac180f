-- ===== src/Golang/Splitting.antt =====
-- Go's strings.Split and strings.Join, and strings.Fields on texts of ASCII.
use tg_files.Common.{
  ℕ, Text, true, false, List, [], ◌∷◌, ◌++◌, ◌≡◌, refl, arith, ◌==◌, if◌then◌else◌, ap, All, ◌∙◌,
}
use tg_files.Golang.Strings.{contains_byte, is_space}

-- strings.Split(s, b) at a text of one byte: the first word, and the words behind it
unfoldable pub split_words : Text → ℕ → Text × List Text
split_words [] b = ([], [])
split_words (c ∷ s) b =
    let (w, ws) = split_words s b in if c == b then ([], w ∷ ws) else (c ∷ w, ws)

unfoldable pub split : Text → ℕ → List Text
unfolding split_words
split s b = let (w, ws) = split_words s b in w ∷ ws

-- strings.Join(words, sep)
unfoldable pub join : List Text → Text → Text
join [] sep = []
join (w ∷ []) sep = w
join (w ∷ v ∷ ws) sep = w ++ (sep ++ join (v ∷ ws) sep)

-- The words of a text between white space, behind the start of a word.
unfoldable pub fields_behind : Text → Text → List Text
unfolding is_space
fields_behind [] [] = []
fields_behind (d ∷ w) [] = (d ∷ w) ∷ []
fields_behind [] (c ∷ s) = fields_behind (if is_space c then [] else c ∷ []) s
fields_behind (d ∷ w) (c ∷ s) = elim (is_space c) [
  | true ↦ (d ∷ w) ∷ fields_behind [] s
  | false ↦ fields_behind (d ∷ w ++ c ∷ []) s
]

-- strings.Fields
unfoldable pub fields : Text → List Text
unfolding fields_behind
fields = fields_behind []

-- Words without the byte.
abbrev pub AreWithout : ℕ → List Text → Type 0
AreWithout b = All (λ w. contains_byte w b ≡ false)

split_words_one : (w : Text) (b : ℕ) → contains_byte w b ≡ false → split_words w b ≡ (w, [])
unfolding split_words contains_byte
split_words_one [] b h = refl
split_words_one (c ∷ w) b h = ground (arith, split_words_one w b)

split_words_head :
    (w s : Text) (b : ℕ) → contains_byte w b ≡ false → split_words (w ++ b ∷ s) b ≡ (w, split s b)
unfolding split_words split contains_byte
split_words_head [] s b h = ground arith
split_words_head (c ∷ w) s b h = ground (arith, split_words_head w s b)

split_one : (w : Text) (b : ℕ) → contains_byte w b ≡ false → split w b ≡ w ∷ []
unfolding split
split_one w b h = ap (λ (p : Text × List Text). p.0 ∷ p.1) (split_words_one w b h)

split_head : (w s : Text) (b : ℕ) → contains_byte w b ≡ false → split (w ++ b ∷ s) b ≡ w ∷ split s b
unfolding split
split_head w s b h = ap (λ (p : Text × List Text). p.0 ∷ p.1) (split_words_head w s b h)

-- Words that are joined by a byte that none of them has come apart again.
pub split-join :
    (w : Text) (ws : List Text) (b : ℕ)
    → contains_byte w b ≡ false
    → AreWithout b ws
    → split (join (w ∷ ws) (b ∷ [])) b ≡ w ∷ ws
unfolding join
split-join w [] b h hs = split_one w b h
split-join w (v ∷ ws) b h (hv, hs) =
    split_head w (join (v ∷ ws) (b ∷ [])) b h ∙ ap (λ l. w ∷ l) (split-join v ws b hv hs)
