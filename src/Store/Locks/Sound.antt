-- ===== src/Store/Locks/Sound.antt =====
-- What every step of the goroutines keeps of the locker.
use tg_files.Common.{
  ℕ, ◌+◌, ◌≤◌, ◌<◌, Text, true, false, List, [], ◌∷◌, ◌++◌, some, ◌≡◌, arith, if◌then◌else◌, ==_iff,
  All,
}
use tg_files.Store.Locks.{
  KeyedLocker, Goroutine, outside, waiting, holding, unlocked, set_locked, set_mutex,
}
use tg_files.Store.Locks.Counting.{uses, holds, sum, sum-append, All-split, All-join}

-- A goroutine's mutex is the one that the map has for its bucket and key.
abbrev pub Points : KeyedLocker → Goroutine → Type 0
Points l outside = Unit
Points l (waiting name p) = l.locks name ≡ some p
Points l (holding name p) = l.locks name ≡ some p
Points l (unlocked name p) = l.locks name ≡ some p

-- References are counted, a locked mutex has one holder, and the map has a mutex for what is in use
-- and for nothing else.
pub record IsSound (l : KeyedLocker) (gs : List Goroutine) : Type 0 where
  pub known : All (Points l) gs
  pub counted : (q : ℕ) → (l.heap q).refs ≡ sum (uses q) gs
  pub exclusive : (q : ℕ) → sum (holds q) gs ≡ (if (l.heap q).locked then 1 else 0)
  pub used : (name : Text) (q : ℕ) → l.locks name ≡ some q → 1 ≤ (l.heap q).refs
  pub fresh : (name : Text) (q : ℕ) → l.locks name ≡ some q → q < l.next
  pub single :
      (name other : Text) (q : ℕ) → l.locks name ≡ some q → l.locks other ≡ some q → name ≡ other

pub All-Points :
    (l l' : KeyedLocker) (gs : List Goroutine)
    → ((name : Text) (p : ℕ) → l.locks name ≡ some p → l'.locks name ≡ some p)
    → All (Points l) gs
    → All (Points l') gs
All-Points l l' [] keep h = tt
All-Points l l' (outside ∷ gs) keep (p, h) = (tt, All-Points l l' gs keep h)
All-Points l l' (waiting name q ∷ gs) keep (p, h) = (keep name q p, All-Points l l' gs keep h)
All-Points l l' (holding name q ∷ gs) keep (p, h) = (keep name q p, All-Points l l' gs keep h)
All-Points l l' (unlocked name q ∷ gs) keep (p, h) = (keep name q p, All-Points l l' gs keep h)

-- Locking and unlocking change no entry of the map and no count of references.
module _ (l : KeyedLocker) (xs ys : List Goroutine) (name : Text) (p : ℕ) where
  pub locks-IsSound :
      (l.heap p).locked ≡ false
      → IsSound l (xs ++ waiting name p ∷ ys)
      → IsSound (set_locked p true l) (xs ++ holding name p ∷ ys)
  unfolding set_locked
  locks-IsSound free h =
      let (here, hx, hy) = All-split (Points l) xs (waiting name p) ys h.known in
      record {
        known =
            All-join (Points (set_locked p true l)) xs (holding name p) ys here
              (All-Points l (set_locked p true l) xs (λ n q e. e) hx)
              (All-Points l (set_locked p true l) ys (λ n q e. e) hy);
        counted = λ q. ground (
          arith,
          h.counted q,
          ==_iff q p,
          sum-append (uses q) xs (waiting name p) ys,
          sum-append (uses q) xs (holding name p) ys,
        );
        exclusive = λ q. ground (
          arith,
          h.exclusive q,
          ==_iff q p,
          sum-append (holds q) xs (waiting name p) ys,
          sum-append (holds q) xs (holding name p) ys,
        );
        used = λ n q e. ground (arith, h.used n q e);
        fresh = h.fresh;
        single = h.single;
      }

  pub unlocks-IsSound :
      IsSound l (xs ++ holding name p ∷ ys)
      → IsSound (set_locked p false l) (xs ++ unlocked name p ∷ ys)
  unfolding set_locked
  unlocks-IsSound h =
      let (here, hx, hy) = All-split (Points l) xs (holding name p) ys h.known in
      record {
        known =
            All-join (Points (set_locked p false l)) xs (unlocked name p) ys here
              (All-Points l (set_locked p false l) xs (λ n q e. e) hx)
              (All-Points l (set_locked p false l) ys (λ n q e. e) hy);
        counted = λ q. ground (
          arith,
          h.counted q,
          ==_iff q p,
          sum-append (uses q) xs (holding name p) ys,
          sum-append (uses q) xs (unlocked name p) ys,
        );
        exclusive = λ q. ground (
          arith,
          h.exclusive q,
          ==_iff q p,
          sum-append (holds q) xs (holding name p) ys,
          sum-append (holds q) xs (unlocked name p) ys,
        );
        used = λ n q e. ground (arith, h.used n q e);
        fresh = h.fresh;
        single = h.single;
      }
      -- A goroutine that finds the mutex in the map.

  pub finds-IsSound :
      l.locks name ≡ some p
      → IsSound l (xs ++ outside ∷ ys)
      → IsSound
          (record l {
            heap =
                set_mutex p
                  (record { locked = (l.heap p).locked; refs = (l.heap p).refs + 1 })
                  l.heap;
          })
          (xs ++ waiting name p ∷ ys)
  finds-IsSound there h =
      let l' : KeyedLocker = record l {
        heap =
            set_mutex p (record { locked = (l.heap p).locked; refs = (l.heap p).refs + 1 }) l.heap;
      } in
      let (here, hx, hy) = All-split (Points l) xs outside ys h.known in
      record {
        known =
            All-join (Points l') xs (waiting name p) ys there (All-Points l l' xs (λ n q e. e) hx)
              (All-Points l l' ys (λ n q e. e) hy);
        counted = λ q. ground (
          arith,
          h.counted q,
          ==_iff q p,
          sum-append (uses q) xs outside ys,
          sum-append (uses q) xs (waiting name p) ys,
        );
        exclusive = λ q. ground (
          arith,
          h.exclusive q,
          ==_iff q p,
          sum-append (holds q) xs outside ys,
          sum-append (holds q) xs (waiting name p) ys,
        );
        used = λ n q e. ground (arith, h.used n q e);
        fresh = h.fresh;
        single = h.single;
      }
