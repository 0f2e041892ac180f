-- ===== src/S3Api/Encoding/Order.antt =====
-- The canonical query does not depend on the order of the parameters.
use tg_files.Common.{
  ℕ, Text, Bool, true, false, List, ◌∷◌, none, some, ◌≡◌, arith, ap, Bool-cases, inl, inr, text_lt,
  text_lt_irrefl, text_lt_trans, text_lt_total, text_eq_iff, map, codes, Option,
}
use tg_files.Golang.Splitting.{split, join}
use tg_files.Golang.Sorting.{IsTotal, Reordered, same, swap, skip, then_also, order_by-Reordered}
use tg_files.S3Api.Encoding.{
  pair_before, query_pair, query_pairs, query_of_tokens, canonical_query_string, encoded_pair,
  append_pair,
}

text_lt_asymmetric : (s t : Text) → text_lt s t ≡ true → text_lt t s ≡ false
text_lt_asymmetric s t h =
    ground (arith, Bool-cases (text_lt t s), text_lt_trans s t s, text_lt_irrefl s)

-- ¬ t < s and t < u give s < u.
text_le_lt_trans : (s t u : Text) → text_lt t s ≡ false → text_lt t u ≡ true → text_lt s u ≡ true
text_le_lt_trans s t u h k = elim (Bool-cases (text_lt s t)) [
  | inl less ↦ text_lt_trans s t u less k
  | inr equal ↦ rw (text_lt_total s t equal h) k
]

pub text_lt-IsTotal : IsTotal text_lt
text_lt-IsTotal = record {
  asymmetric = text_lt_asymmetric;
  total = text_lt_total;
  le_lt_trans = text_le_lt_trans;
}

pair_before_asymmetric : (p q : Text × Text) → pair_before p q ≡ true → pair_before q p ≡ false
unfolding pair_before
pair_before_asymmetric (k, v) (l, w) h =
    ground (arith, text_eq_iff k l, text_eq_iff l k, text_lt_asymmetric v w, text_lt_asymmetric k l)

pair_before_total : (p q : Text × Text) → pair_before p q ≡ false → pair_before q p ≡ false → p ≡ q
unfolding pair_before
pair_before_total (k, v) (l, w) h h' =
    ground (arith, text_eq_iff k l, text_eq_iff l k, text_lt_total v w, text_lt_total k l)

pair_before_le_lt_trans :
    (p q r : Text × Text)
    → pair_before q p ≡ false
    → pair_before q r ≡ true
    → pair_before p r ≡ true
unfolding pair_before
pair_before_le_lt_trans (k, v) (l, w) (m, x) h h' = ground (
  arith,
  text_eq_iff k l,
  text_eq_iff l k,
  text_eq_iff k m,
  text_eq_iff l m,
  text_le_lt_trans v w x,
  text_le_lt_trans k l m,
  text_lt_asymmetric l m,
  text_lt_irrefl l,
  text_lt_total k l,
)

pair_before-IsTotal : IsTotal pair_before
pair_before-IsTotal = record {
  asymmetric = pair_before_asymmetric;
  total = pair_before_total;
  le_lt_trans = pair_before_le_lt_trans;
}

append_pair-swap :
    (p q : Option (Text × Text)) (pairs : List (Text × Text))
    → Reordered (append_pair p (append_pair q pairs)) (append_pair q (append_pair p pairs))
append_pair-swap none q pairs = same _
append_pair-swap (some p) none pairs = same _
append_pair-swap (some p) (some q) pairs = swap p q pairs

append_pair-skip :
    (p : Option (Text × Text)) {xs ys : List (Text × Text)}
    → Reordered xs ys
    → Reordered (append_pair p xs) (append_pair p ys)
append_pair-skip none r = r
append_pair-skip (some p) r = skip p r

query_pairs-Reordered :
    (exclude : Bool) {xs ys : List Text}
    → Reordered xs ys
    → Reordered (query_pairs exclude xs) (query_pairs exclude ys)
unfolding query_pairs
query_pairs-Reordered exclude (same xs) = same _
query_pairs-Reordered exclude (swap x y xs) =
    append_pair-swap (query_pair exclude x) (query_pair exclude y) (query_pairs exclude xs)
query_pairs-Reordered exclude (skip x r) =
    append_pair-skip (query_pair exclude x) (query_pairs-Reordered exclude r)
query_pairs-Reordered exclude (then_also r q) =
    then_also (query_pairs-Reordered exclude r) (query_pairs-Reordered exclude q)

-- Two queries that are not empty and have the same parameters, in any order, have one canonical form.
pub canonical_query_string-Reordered :
    (exclude : Bool) (c c' : ℕ) (raw raw' : Text)
    → Reordered (split (c ∷ raw) b'&') (split (c' ∷ raw') b'&')
    → canonical_query_string (c ∷ raw) exclude ≡ canonical_query_string (c' ∷ raw') exclude
unfolding canonical_query_string query_of_tokens
canonical_query_string-Reordered exclude c c' raw raw' r =
    ap (λ l. join (map encoded_pair l) (codes "&"))
      (order_by-Reordered pair_before pair_before-IsTotal (query_pairs-Reordered exclude r))
