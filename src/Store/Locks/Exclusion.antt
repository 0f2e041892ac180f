-- ===== src/Store/Locks/Exclusion.antt =====
-- Mutual exclusion for each bucket and key, and no entry that is left behind.
use tg_files.Common.{
  ℕ, ◌≤◌, Text, false, List, [], ◌∷◌, ◌++◌, none, some, ◌≡◌, refl, arith, sym, subst, ap, ◌∙◌,
  text_eq, eq_of_text_eq, ==_iff, All, Option-cases, Bool-cases, inl, inr,
}
use tg_files.Golang.Strings.{cut, contains_byte, cut-append}
use tg_files.Store.Locks.{
  KeyedLocker, Goroutine, outside, waiting, holding, unlocked, enter, Step, Steps, enters, locks,
  unlocks, leaves, rests, goes, new_keyed_locker, composite,
}
use tg_files.Store.Locks.Counting.{holds, holds_name, uses, sum}
use tg_files.Store.Locks.Sound.{Points, IsSound, locks-IsSound, unlocks-IsSound, finds-IsSound}
use tg_files.Store.Locks.Allocating.{allocates-IsSound}
use tg_files.Store.Locks.Leaving.{leaves-IsSound}

enters-IsSound :
    (l : KeyedLocker) (xs ys : List Goroutine) (name : Text)
    → IsSound l (xs ++ outside ∷ ys)
    → IsSound (enter name l).1 (xs ++ waiting name (enter name l).0 ∷ ys)
unfolding enter
enters-IsSound l xs ys name h = elim (Option-cases (l.locks name)) [
  | inl absent ↦ rw (absent, enter) (allocates-IsSound l xs ys name absent h)
  | inr (p, there) ↦ rw (there, enter) (finds-IsSound l xs ys name p there h)
]

Step-IsSound :
    (l m : KeyedLocker) (gs hs : List Goroutine) → Step l gs m hs → IsSound l gs → IsSound m hs
Step-IsSound l _ _ _ (enters _ xs ys name) h = enters-IsSound l xs ys name h
Step-IsSound l _ _ _ (locks _ xs ys name p free) h = locks-IsSound l xs ys name p free h
Step-IsSound l _ _ _ (unlocks _ xs ys name p) h = unlocks-IsSound l xs ys name p h
Step-IsSound l _ _ _ (leaves _ xs ys name p) h = leaves-IsSound l xs ys name p h

Steps-IsSound :
    (l m : KeyedLocker) (gs hs : List Goroutine) → Steps l gs m hs → IsSound l gs → IsSound m hs
Steps-IsSound l _ gs _ (rests _ _) h = h
Steps-IsSound l m gs hs (goes {m = k} {hs = is} step steps) h =
    Steps-IsSound k m is hs steps (Step-IsSound l k gs is step h)

-- Every goroutine is outside of the locker.
abbrev pub AreOutside : List Goroutine → Type 0
AreOutside = All (λ g. g ≡ outside)

sum-outside :
    (f : Goroutine → ℕ) (gs : List Goroutine) → f outside ≡ 0 → AreOutside gs → sum f gs ≡ 0
sum-outside f [] e h = refl
sum-outside f (g ∷ gs) e (out, h) =
    let ih = sum-outside f gs e h in
    let zero_here : f g ≡ 0 = ap f out ∙ e in omega (arith, ih, zero_here)

outside-Points : (l : KeyedLocker) (gs : List Goroutine) → AreOutside gs → All (Points l) gs
outside-Points l [] h = tt
outside-Points l (g ∷ gs) (out, h) = (subst (Points l) (sym out) tt, outside-Points l gs h)

start-IsSound : (gs : List Goroutine) → AreOutside gs → IsSound new_keyed_locker gs
unfolding new_keyed_locker
start-IsSound gs out = record {
  known = outside-Points new_keyed_locker gs out;
  counted = λ q. sym (sum-outside (uses q) gs refl out);
  exclusive = λ q. sum-outside (holds q) gs refl out;
  used = λ n q e. ground arith;
  fresh = λ n q e. ground arith;
  single = λ n o q e f. ground arith;
}

holds_name-le :
    (l : KeyedLocker) (name : Text) (p : ℕ) (gs : List Goroutine)
    → l.locks name ≡ some p
    → All (Points l) gs
    → sum (holds_name name) gs ≤ sum (holds p) gs
holds_name-le l name p [] e h = omega arith
holds_name-le l name p (outside ∷ gs) e (q, h) = omega (arith, holds_name-le l name p gs e h)
holds_name-le l name p (waiting n r ∷ gs) e (q, h) = omega (arith, holds_name-le l name p gs e h)
holds_name-le l name p (unlocked n r ∷ gs) e (q, h) = omega (arith, holds_name-le l name p gs e h)
holds_name-le l name p (holding n r ∷ gs) e (q, h) =
    let ih = holds_name-le l name p gs e h in
    elim (Bool-cases (text_eq n name)) [
      | inl equal ↦
          let same : l.locks name ≡ some r =
            subst (λ t. l.locks t ≡ some r) (eq_of_text_eq n name equal) q in
          ground (arith, ==_iff r p, ih)
      | inr differs ↦ ground (arith, ih)
    ]

holds_name-none :
    (l : KeyedLocker) (name : Text) (gs : List Goroutine)
    → l.locks name ≡ none
    → All (Points l) gs
    → sum (holds_name name) gs ≡ 0
holds_name-none l name [] e h = refl
holds_name-none l name (outside ∷ gs) e (q, h) = omega (arith, holds_name-none l name gs e h)
holds_name-none l name (waiting n r ∷ gs) e (q, h) = omega (arith, holds_name-none l name gs e h)
holds_name-none l name (unlocked n r ∷ gs) e (q, h) = omega (arith, holds_name-none l name gs e h)
holds_name-none l name (holding n r ∷ gs) e (q, h) =
    let ih = holds_name-none l name gs e h in
    elim (Bool-cases (text_eq n name)) [
      | inl equal ↦
          let same : l.locks name ≡ some r =
            subst (λ t. l.locks t ≡ some r) (eq_of_text_eq n name equal) q in
          ground arith
      | inr differs ↦ ground (arith, ih)
    ]

-- However many goroutines lock and unlock, from a new locker on and in any interleaving, at most one
-- holds the lock of a bucket and key at a time.
pub Steps-holds_name :
    (l : KeyedLocker) (gs hs : List Goroutine) (bucket key : Text)
    → AreOutside gs
    → Steps new_keyed_locker gs l hs
    → sum (holds_name (composite bucket key)) hs ≤ 1
Steps-holds_name l gs hs bucket key out steps =
    let sound = Steps-IsSound new_keyed_locker l gs hs steps (start-IsSound gs out) in
    let name = composite bucket key in
    elim (Option-cases (l.locks name)) [
      | inl absent ↦ omega (arith, holds_name-none l name hs absent sound.known)
      | inr (p, there) ↦
          ground (arith, holds_name-le l name p hs there sound.known, sound.exclusive p)
    ]

-- When goroutines have locked and unlocked, from a new locker on and in any interleaving, and all of
-- them are outside again, the map has no entry left.
pub Steps-AreOutside :
    (l : KeyedLocker) (gs hs : List Goroutine) (name : Text)
    → AreOutside gs
    → Steps new_keyed_locker gs l hs
    → AreOutside hs
    → l.locks name ≡ none
Steps-AreOutside l gs hs name out steps out' =
    let sound = Steps-IsSound new_keyed_locker l gs hs steps (start-IsSound gs out) in
    elim (Option-cases (l.locks name)) [
      | inl absent ↦ absent
      | inr (p, there) ↦
          let no_use = sum-outside (uses p) hs refl out' in
          ground (arith, sound.used name p there, sound.counted p, no_use)
    ]

-- Two buckets without a zero byte have the lock of two keys in common only when both are the same.
pub composite_injective :
    (bucket key bucket' key' : Text)
    → contains_byte bucket 0 ≡ false
    → contains_byte bucket' 0 ≡ false
    → composite bucket key ≡ composite bucket' key'
    → (bucket ≡ bucket') × (key ≡ key')
unfolding composite
composite_injective bucket key bucket' key' h h' e =
    let left : Text × Text = (bucket, key) in
    let right : Text × Text = (bucket', key') in
    let parts : some left ≡ some right =
      sym (cut-append bucket key 0 h) ∙ ap (λ t. cut t 0) e ∙ cut-append bucket' key' 0 h' in
    let pair : left ≡ right = cc in
    (ap (λ (t : Text × Text). t.0) pair, ap (λ (t : Text × Text). t.1) pair)
