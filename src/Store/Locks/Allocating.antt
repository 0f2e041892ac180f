-- ===== src/Store/Locks/Allocating.antt =====
-- A goroutine that finds no mutex in the map allocates one.
use tg_files.Common.{
  ℕ, suc, ◌≤◌, ◌<◌, Text, false, List, [], ◌∷◌, ◌++◌, none, some, ◌≡◌, refl, arith, sym, subst, ◌∙◌,
  if◌then◌else◌, text_eq, text_eq_refl, eq_of_text_eq, ◌==◌, ==_iff, All, Bool-cases, inl, inr, ◌⊎◌,
}
use tg_files.Store.Locks.{
  KeyedLocker, Goroutine, outside, waiting, holding, unlocked, set_lock, set_mutex,
}
use tg_files.Store.Locks.Counting.{uses, holds, sum, sum-append, All-split, All-join}
use tg_files.Store.Locks.Sound.{Points, IsSound, All-Points}

-- No goroutine uses a pointer that is not allocated yet.
unused :
    (l : KeyedLocker) (gs : List Goroutine)
    → ((name : Text) (q : ℕ) → l.locks name ≡ some q → q < l.next)
    → All (Points l) gs
    → (sum (uses l.next) gs ≡ 0) × (sum (holds l.next) gs ≡ 0)
unused l [] fresh h = (refl, refl)
unused l (outside ∷ gs) fresh (p, h) =
    let (u, v) = unused l gs fresh h in (omega arith, omega arith)
unused l (waiting name q ∷ gs) fresh (p, h) =
    let (u, v) = unused l gs fresh h in
    (ground (arith, fresh name q p, ==_iff q l.next), ground arith)
unused l (holding name q ∷ gs) fresh (p, h) =
    let (u, v) = unused l gs fresh h in
    (
      ground (arith, fresh name q p, ==_iff q l.next),
      ground (arith, fresh name q p, ==_iff q l.next),
    )
unused l (unlocked name q ∷ gs) fresh (p, h) =
    let (u, v) = unused l gs fresh h in
    (ground (arith, fresh name q p, ==_iff q l.next), ground arith)

-- A goroutine that allocates the mutex.
module _ (l : KeyedLocker) (xs ys : List Goroutine) (name : Text) where
  abbrev pub allocated : KeyedLocker
  allocated = record {
    locks = set_lock name (some l.next) l.locks;
    heap = set_mutex l.next (record { locked = false; refs = 1 }) l.heap;
    next = suc l.next;
  }

  kept_entry :
      l.locks name ≡ none → (n : Text) (q : ℕ) → l.locks n ≡ some q → allocated.locks n ≡ some q
  kept_entry absent n q e = elim (Bool-cases (text_eq n name)) [
    | inl equal ↦
        let f : l.locks n ≡ none =
          subst (λ t. l.locks t ≡ none) (sym (eq_of_text_eq n name equal)) absent in
        ground arith
    | inr other ↦ rw other e
  ]

  allocated-cases :
      (n : Text) (q : ℕ)
      → allocated.locks n ≡ some q
      → ((n ≡ name) × (l.next ≡ q)) ⊎ (l.locks n ≡ some q)
  allocated-cases n q e = elim (Bool-cases (text_eq n name)) [
    | inl equal ↦ inl (eq_of_text_eq n name equal, ground arith)
    | inr other ↦ inr (ground arith)
  ]

  pub allocates-IsSound :
      l.locks name ≡ none
      → IsSound l (xs ++ outside ∷ ys)
      → IsSound allocated (xs ++ waiting name l.next ∷ ys)
  allocates-IsSound absent h =
      let (here, hx, hy) = All-split (Points l) xs outside ys h.known in
      let (no_use, no_hold) = unused l (xs ++ outside ∷ ys) h.fresh h.known in
      let gs = xs ++ waiting name l.next ∷ ys in
      record {
        known =
            All-join (Points allocated) xs (waiting name l.next) ys (rw (text_eq_refl name) refl)
              (All-Points l allocated xs (kept_entry absent) hx)
              (All-Points l allocated ys (kept_entry absent) hy);
        counted = λ q. elim (Bool-cases (q == l.next)) [
          | inl new ↦
              subst (λ t. (allocated.heap t).refs ≡ sum (uses t) gs) (sym ((==_iff q l.next).0 new))
                (ground (
                  arith,
                  no_use,
                  sum-append (uses l.next) xs outside ys,
                  sum-append (uses l.next) xs (waiting name l.next) ys,
                ))
          | inr old ↦ ground (
            arith,
            h.counted q,
            ==_iff q l.next,
            sum-append (uses q) xs outside ys,
            sum-append (uses q) xs (waiting name l.next) ys,
          )
        ];
        exclusive = λ q. elim (Bool-cases (q == l.next)) [
          | inl new ↦
              subst (λ t. sum (holds t) gs ≡ (if (allocated.heap t).locked then 1 else 0))
                (sym ((==_iff q l.next).0 new))
                (ground (
                  arith,
                  no_hold,
                  sum-append (holds l.next) xs outside ys,
                  sum-append (holds l.next) xs (waiting name l.next) ys,
                ))
          | inr old ↦ ground (
            arith,
            h.exclusive q,
            ==_iff q l.next,
            sum-append (holds q) xs outside ys,
            sum-append (holds q) xs (waiting name l.next) ys,
          )
        ];
        used = λ n q e. elim (allocated-cases n q e) [
          | inl (same, new) ↦ subst (λ t. 1 ≤ (allocated.heap t).refs) new (ground arith)
          | inr old ↦ ground (arith, h.used n q old, h.fresh n q old)
        ];
        fresh = λ n q e. elim (allocated-cases n q e) [
          | inl (same, new) ↦ omega (arith, new)
          | inr old ↦ omega (arith, h.fresh n q old)
        ];
        single = λ n o q e f. elim (allocated-cases n q e) [
          | inl (same, new) ↦ elim (allocated-cases o q f) [
            | inl (equal, _) ↦ same ∙ sym equal
            | inr old ↦ ground (arith, h.fresh o q old)
          ]
          | inr old ↦ elim (allocated-cases o q f) [
            | inl (equal, new) ↦ ground (arith, h.fresh n q old)
            | inr there ↦ h.single n o q old there
          ]
        ];
      }
