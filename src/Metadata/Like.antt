-- ===== src/Metadata/Like.antt =====
-- SQLite's `key LIKE pattern ESCAPE '\'`, and escapeSQLiteLikePattern.
-- `%` stands for any run of characters, `_` for one, a character behind `\` for itself, and every
-- other character for itself. Letters of ASCII match in either case, as `migrate` and `openSQLite`
-- leave PRAGMA case_sensitive_like alone. The model walks bytes, so `_` is one byte: the program
-- never sends a `_` that is not escaped.
use tg_files.Common.{
  ℕ, Text, Bool, true, false, [], ◌∷◌, ◌++◌, ◌≡◌, refl, arith, ◌==◌, ◌&&◌, ◌||◌, map, if◌then◌else◌,
  Bool-cases, append_assoc, inl, inr, ◌∙◌, sym,
}
use tg_files.Golang.Strings.{lower_byte, has_prefix}

-- Does `matches` hold of some end of the text?
any_tail : (Text → Bool) → Text → Bool
any_tail matches [] = matches []
any_tail matches (c ∷ t) = matches (c ∷ t) || any_tail matches t

one_byte : (Text → Bool) → Text → Bool
one_byte matches [] = false
one_byte matches (c ∷ t) = matches t

literal : ℕ → (Text → Bool) → Text → Bool
literal c matches [] = false
literal c matches (d ∷ t) = lower_byte c == lower_byte d && matches t

is_empty : Text → Bool
is_empty [] = true
is_empty (c ∷ t) = false

-- A character of the pattern that no `\` stands before.
plain : ℕ → (Text → Bool) → Text → Bool
plain c matches t =
    if c == b'%'
    then any_tail matches t
    else if c == b'_'
    then one_byte matches t
    else literal c matches t

unfoldable pub like : Text → Text → Bool
unfolding any_tail one_byte literal is_empty plain
like [] t = is_empty t
like (c ∷ []) t = if c == b'\\' then false else plain c is_empty t
like (c ∷ d ∷ p) t = if c == b'\\' then literal d (like p) t else plain c (like (d ∷ p)) t

-- the bytes that mean something in a pattern
special : ℕ → Bool
special c = c == b'\\' || c == b'%' || c == b'_'

escape_byte : ℕ → Text
escape_byte c = if special c then b'\\' ∷ c ∷ [] else c ∷ []

-- escapeSQLiteLikePattern: each of the three bytes gets a `\` before it.
unfoldable pub escape_like : Text → Text
unfolding escape_byte special
escape_like [] = []
escape_like (c ∷ s) = escape_byte c ++ escape_like s

-- The pattern of every query by prefix.
abbrev pub prefix_pattern : Text → Text
prefix_pattern prefix = escape_like prefix ++ b'%' ∷ []

like-plain : (c : ℕ) (p t : Text) → special c ≡ false → like (c ∷ p) t ≡ literal c (like p) t
unfolding like special
like-plain c [] t h = ground arith
like-plain c (d ∷ p) t h = ground arith

like-escape_byte : (c : ℕ) (p t : Text) → like (escape_byte c ++ p) t ≡ literal c (like p) t
unfolding escape_byte
like-escape_byte c p t = elim (Bool-cases (special c)) [
  | inl escaped ↦ rw escaped (unfold like in refl)
  | inr other ↦ rw other (like-plain c p t other)
]

any_tail-is_empty : (t : Text) → any_tail is_empty t ≡ true
unfolding any_tail is_empty
any_tail-is_empty [] = refl
any_tail-is_empty (c ∷ t) = any_tail-is_empty t

literal_prefix :
    (c : ℕ) (p : Text) (matches : Text → Bool) (t : Text)
    → ((u : Text) → matches u ≡ has_prefix (map lower_byte u) p)
    → literal c matches t ≡ has_prefix (map lower_byte t) (lower_byte c ∷ p)
unfolding literal has_prefix
literal_prefix c p matches [] h = refl
literal_prefix c p matches (d ∷ t) h = ground (arith, h t)

has_prefix-nil : (s : Text) → has_prefix s [] ≡ true
unfolding has_prefix
has_prefix-nil [] = refl
has_prefix-nil (c ∷ s) = refl

prefix_pattern-cons :
    (c : ℕ) (prefix t : Text)
    → like (prefix_pattern (c ∷ prefix)) t ≡ literal c (like (prefix_pattern prefix)) t
unfolding escape_like
prefix_pattern-cons c prefix t =
    rw (append_assoc (escape_byte c) (escape_like prefix) (b'%' ∷ []))
      (like-escape_byte c (prefix_pattern prefix) t)

-- A query by prefix finds the keys that begin with the prefix up to the case of ASCII letters.
pub like-prefix_pattern :
    (prefix t : Text)
    → like (prefix_pattern prefix) t ≡ has_prefix (map lower_byte t) (map lower_byte prefix)
like-prefix_pattern [] t =
    unfold escape_like like in any_tail-is_empty t ∙ sym (has_prefix-nil (map lower_byte t))
like-prefix_pattern (c ∷ prefix) t =
    prefix_pattern-cons c prefix t
    ∙ literal_prefix c (map lower_byte prefix) (like (prefix_pattern prefix)) t
        (like-prefix_pattern prefix)
