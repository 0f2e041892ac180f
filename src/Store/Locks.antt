-- ===== src/Store/Locks.antt =====
-- store/locks.go: one mutex for each bucket and key in use, under goroutines in any interleaving.
pub mod Counting
pub mod Sound
pub mod Allocating
pub mod Leaving
pub mod Exclusion
mod Tests
use tg_files.Common.{
  ℕ, suc, ◌+◌, ◌-◌, Text, Bool, true, false, List, [], ◌∷◌, ◌++◌, Option, none, some, ◌≡◌,
  if◌then◌else◌, text_eq, ◌==◌,
}

-- keyedMutex: is `mu` locked, and how many goroutines hold it or are about to lock it.
pub record KeyedMutex : Type 0 where
  pub locked : Bool
  pub refs : ℕ

-- A pointer to a mutex is a number; `heap` holds the mutexes and `next` is the pointer that the next
-- allocation returns.
pub record KeyedLocker : Type 0 where
  pub locks : Text → Option ℕ
  pub heap : ℕ → KeyedMutex
  pub next : ℕ

unfoldable pub composite : Text → Text → Text
composite bucket key = bucket ++ 0 ∷ key

abbrev pub set_lock : Text → Option ℕ → (Text → Option ℕ) → Text → Option ℕ
set_lock name pointer locks other = if text_eq other name then pointer else locks other

abbrev pub set_mutex : ℕ → KeyedMutex → (ℕ → KeyedMutex) → ℕ → KeyedMutex
set_mutex pointer mutex heap other = if other == pointer then mutex else heap other

unfoldable pub new_keyed_locker : KeyedLocker
new_keyed_locker = record {
  locks = λ name. none;
  heap = λ pointer. record { locked = false; refs = 0 };
  next = 0;
}

-- The critical section of Lock, before it locks the mutex that it returns here.
unfoldable pub enter : Text → KeyedLocker → ℕ × KeyedLocker
enter name l = elim (l.locks name) [
  | none ↦ (
    l.next,
    record {
      locks = set_lock name (some l.next) l.locks;
      heap = set_mutex l.next (record { locked = false; refs = 1 }) l.heap;
      next = suc l.next;
    },
  )
  | some pointer ↦ (
    pointer,
    record l {
      heap =
          set_mutex pointer
            (record { locked = (l.heap pointer).locked; refs = (l.heap pointer).refs + 1 }) l.heap;
    },
  )
]

-- m.mu.Lock() and m.mu.Unlock()
unfoldable pub set_locked : ℕ → Bool → KeyedLocker → KeyedLocker
set_locked pointer b l = record l {
  heap = set_mutex pointer (record { locked = b; refs = (l.heap pointer).refs }) l.heap;
}

abbrev pub is_pointer : ℕ → Option ℕ → Bool
is_pointer pointer none = false
is_pointer pointer (some other) = other == pointer

-- The critical section of the function that Lock returns.
unfoldable pub leave : Text → ℕ → KeyedLocker → KeyedLocker
leave name pointer l =
    let refs = (l.heap pointer).refs - 1 in
    record l {
      heap = set_mutex pointer (record { locked = (l.heap pointer).locked; refs = refs }) l.heap;
      locks =
          if refs == 0
          then (if is_pointer pointer (l.locks name) then set_lock name none l.locks else l.locks)
          else l.locks;
    }

-- Where a goroutine is: outside, before m.mu.Lock(), between Lock and the call of the function that
-- it returned, or behind m.mu.Unlock() there.
pub data Goroutine : Type 0 where
  outside : Goroutine
  waiting holding unlocked : Text → ℕ → Goroutine

pub data Step : KeyedLocker → List Goroutine → KeyedLocker → List Goroutine → Type 0 where
  enters :
      (l : KeyedLocker) (xs ys : List Goroutine) (name : Text)
      → Step l (xs ++ outside ∷ ys) (enter name l).1 (xs ++ waiting name (enter name l).0 ∷ ys)
  locks :
      (l : KeyedLocker) (xs ys : List Goroutine) (name : Text) (pointer : ℕ)
      → (l.heap pointer).locked ≡ false
      → Step l
          (xs ++ waiting name pointer ∷ ys)
          (set_locked pointer true l)
          (xs ++ holding name pointer ∷ ys)
  unlocks :
      (l : KeyedLocker) (xs ys : List Goroutine) (name : Text) (pointer : ℕ)
      → Step l
          (xs ++ holding name pointer ∷ ys)
          (set_locked pointer false l)
          (xs ++ unlocked name pointer ∷ ys)
  leaves :
      (l : KeyedLocker) (xs ys : List Goroutine) (name : Text) (pointer : ℕ)
      → Step l (xs ++ unlocked name pointer ∷ ys) (leave name pointer l) (xs ++ outside ∷ ys)

pub data Steps : KeyedLocker → List Goroutine → KeyedLocker → List Goroutine → Type 0 where
  rests : (l : KeyedLocker) (gs : List Goroutine) → Steps l gs l gs
  goes :
      {l m n : KeyedLocker} {gs hs is : List Goroutine}
      → Step l gs m hs
      → Steps m hs n is
      → Steps l gs n is
