-- ===== src/Dav/Paths/Proper.antt =====
-- parsePath leaves no way out of a bucket.
use tg_files.Common.{
  ℕ, Text, codes, false, not, ◌&&◌, ◌||◌, List, [], ◌∷◌, ◌++◌, none, ◌≡◌, refl, arith, ◌∙◌, sym,
  if_true, if_false, text_eq, subst, false≢true, ok_injective, ok, ◌==◌, All, Bool-cases,
  Option-cases, inl, inr, ◌⊎◌,
}
use tg_files.Golang.Strings.{cut, cut-append, contains_byte, ends_with_byte}
use tg_files.Golang.Splitting.{split, split_words, join, AreWithout}
use tg_files.Dav.Paths.{
  clean_elements, drop_last, ParsedPath, root, at, with_slash, parse_cleaned, parse_path,
  path_unescape, clean_step, parse_cut,
}

-- A name in a directory: not empty, not "." or "..", and without a slash.
abbrev pub IsProper : Text → Type 0
IsProper w =
    (text_eq w [] ≡ false)
    × (text_eq w (codes ".") ≡ false)
    × (text_eq w (codes "..") ≡ false)
    × (contains_byte w b'/' ≡ false)

split_words-without :
    (s : Text) (b : ℕ)
    → (contains_byte (split_words s b).0 b ≡ false) × AreWithout b (split_words s b).1
unfolding split_words contains_byte
split_words-without [] b = (refl, tt)
split_words-without (c ∷ s) b = elim (Bool-cases (c == b)) [
  | inl here ↦ rw here (refl, split_words-without s b)
  | inr other ↦
      rw other (if_false _ _ other ∙ (split_words-without s b).0, (split_words-without s b).1)
]

All-snoc : (P : Text → Type 0) (ws : List Text) (w : Text) → All P ws → P w → All P (ws ++ w ∷ [])
All-snoc P [] w hs h = (h, tt)
All-snoc P (v ∷ ws) w (hv, hs) h = (hv, All-snoc P ws w hs h)

All-drop_last : (P : Text → Type 0) (ws : List Text) → All P ws → All P (drop_last ws)
unfolding drop_last
All-drop_last P [] hs = tt
All-drop_last P (w ∷ []) hs = tt
All-drop_last P (w ∷ v ∷ ws) (hw, hs) = (hw, All-drop_last P (v ∷ ws) hs)

clean_step-IsProper :
    (kept : List Text) (w : Text)
    → All IsProper kept
    → contains_byte w b'/' ≡ false
    → All IsProper (clean_step kept w)
unfolding clean_step
clean_step-IsProper kept w hk hw = elim (Bool-cases (text_eq w [] || text_eq w (codes "."))) [
  | inl same ↦ rw same hk
  | inr name ↦ elim (Bool-cases (text_eq w (codes ".."))) [
    | inl up ↦ rw (name, up) (All-drop_last IsProper kept hk)
    | inr down ↦
        rw (name, down) (All-snoc IsProper kept w hk (ground arith, ground arith, down, hw))
  ]
]

-- What is left of a path are proper names.
clean_elements-IsProper :
    (kept elements : List Text)
    → All IsProper kept
    → AreWithout b'/' elements
    → All IsProper (clean_elements kept elements)
unfolding clean_elements
clean_elements-IsProper kept [] hk he = hk
clean_elements-IsProper kept (w ∷ elements) hk (hw, he) =
    clean_elements-IsProper (clean_step kept w) elements (clean_step-IsProper kept w hk hw) he

-- A key is the names joined by slashes, and may have one slash at its end.
abbrev pub Joins : Text → List Text → Type 0
Joins key names = (key ≡ join names (codes "/")) ⊎ (key ≡ join names (codes "/") ++ codes "/")

with_slash-cases :
    (decoded key : Text)
    → (with_slash decoded key ≡ key) ⊎ (with_slash decoded key ≡ key ++ codes "/")
unfolding with_slash
with_slash-cases decoded key =
    elim (Bool-cases
      (ends_with_byte decoded b'/' && not (text_eq key []) && not (ends_with_byte key b'/'))) [
        | inl slash ↦ inr (if_true _ _ slash)
        | inr plain ↦ inl (if_false _ _ plain)
      ]

-- What stands for a path that names a bucket and a key.
abbrev pub IsInside : ParsedPath → Type 0
IsInside root = Unit
IsInside (at bucket key) =
    IsProper bucket × (names : List Text) × All IsProper names × Joins key names

cut-none : (s : Text) (b : ℕ) → contains_byte s b ≡ false → cut s b ≡ none
unfolding cut contains_byte
cut-none [] b h = refl
cut-none (c ∷ s) b h = ground (arith, cut-none s b)

parse_cleaned-IsInside :
    (decoded : Text) (names : List Text)
    → All IsProper names
    → IsInside (parse_cleaned decoded (join names (codes "/")))
unfolding parse_cleaned parse_cut join
parse_cleaned-IsInside decoded [] h = tt
parse_cleaned-IsInside decoded ([] ∷ names) (h, hs) =
    absurd (unfold text_eq in false≢true (sym h.0))
parse_cleaned-IsInside decoded ((c ∷ w) ∷ []) (h, hs) =
    subst (λ o. IsInside (parse_cut decoded (c ∷ w) o)) (sym (cut-none (c ∷ w) b'/' h.3))
      (h, [], tt, inl refl)
parse_cleaned-IsInside decoded ((c ∷ w) ∷ v ∷ names) (h, hs) =
    subst (λ o. IsInside (parse_cut decoded ((c ∷ w) ++ b'/' ∷ join (v ∷ names) (codes "/")) o))
      (sym (cut-append (c ∷ w) (join (v ∷ names) (codes "/")) b'/' h.3))
      (h, v ∷ names, hs, with_slash-cases decoded (join (v ∷ names) (codes "/")))

-- A path that parsePath accepts is the root, or it names a bucket and a key in it: the bucket's name
-- and every element of the key, of which there may be none, is not empty, not "." or "..", and has no
-- slash, and the key is its elements joined by slashes, with at most one slash more at its end.
pub parse_path-IsInside :
    (p : Text) (parsed : ParsedPath) → parse_path p ≡ ok parsed → IsInside parsed
unfolding parse_path
parse_path-IsInside p parsed e = elim (Option-cases (path_unescape p)) [
  | inl unread ↦ absurd (ground arith)
  | inr (decoded, read) ↦
      let names = clean_elements [] (split decoded b'/') in
      let same : parse_cleaned decoded (join names (codes "/")) ≡ parsed =
        ok_injective (rw (read, parse_path) at e) in
      subst IsInside same (
        parse_cleaned-IsInside decoded names (
          clean_elements-IsProper [] (split decoded b'/') tt
            (unfold split in split_words-without decoded b'/')))
]
