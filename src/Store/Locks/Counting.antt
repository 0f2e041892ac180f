-- ===== src/Store/Locks/Counting.antt =====
-- How many goroutines use a mutex, and which of them hold it.
use tg_files.Common.{
  ℕ, ◌+◌, Text, List, [], ◌∷◌, ◌++◌, ◌≡◌, arith, if◌then◌else◌, text_eq, ◌==◌, All,
}
use tg_files.Store.Locks.{Goroutine, outside, waiting, holding, unlocked}

abbrev pub uses : ℕ → Goroutine → ℕ
uses pointer outside = 0
uses pointer (waiting name p) = if p == pointer then 1 else 0
uses pointer (holding name p) = if p == pointer then 1 else 0
uses pointer (unlocked name p) = if p == pointer then 1 else 0

abbrev pub holds : ℕ → Goroutine → ℕ
holds pointer outside = 0
holds pointer (waiting name p) = 0
holds pointer (holding name p) = if p == pointer then 1 else 0
holds pointer (unlocked name p) = 0

-- The goroutine holds the lock of a bucket and key.
abbrev pub holds_name : Text → Goroutine → ℕ
holds_name name outside = 0
holds_name name (waiting other p) = 0
holds_name name (holding other p) = if text_eq other name then 1 else 0
holds_name name (unlocked other p) = 0

abbrev pub sum : (Goroutine → ℕ) → List Goroutine → ℕ
sum f [] = 0
sum f (g ∷ gs) = f g + sum f gs

pub sum-append :
    (f : Goroutine → ℕ) (xs : List Goroutine) (g : Goroutine) (ys : List Goroutine)
    → sum f (xs ++ g ∷ ys) ≡ f g + (sum f xs + sum f ys)
sum-append f [] g ys = omega arith
sum-append f (x ∷ xs) g ys = omega (arith, sum-append f xs g ys)

pub All-split :
    (P : Goroutine → Type 0) (xs : List Goroutine) (g : Goroutine) (ys : List Goroutine)
    → All P (xs ++ g ∷ ys)
    → P g × All P xs × All P ys
All-split P [] g ys (p, h) = (p, tt, h)
All-split P (x ∷ xs) g ys (px, h) = let (p, hx, hy) = All-split P xs g ys h in (p, (px, hx), hy)

pub All-join :
    (P : Goroutine → Type 0) (xs : List Goroutine) (g : Goroutine) (ys : List Goroutine)
    → P g
    → All P xs
    → All P ys
    → All P (xs ++ g ∷ ys)
All-join P [] g ys p hx hy = (p, hy)
All-join P (x ∷ xs) g ys p (px, hx) hy = (px, All-join P xs g ys p hx hy)
