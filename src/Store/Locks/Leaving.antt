-- ===== src/Store/Locks/Leaving.antt =====
-- A goroutine that leaves drops its reference, and the map's entry with the last one.
use tg_files.Common.{
  ℕ, ◌-◌, Text, true, false, List, [], ◌∷◌, ◌++◌, none, some, ◌≡◌, refl, arith, subst,
  if◌then◌else◌, text_eq, text_eq_iff, eq_of_text_eq, ◌==◌, ==_iff, All, Bool-cases, inl, inr,
}
use tg_files.Store.Locks.{
  KeyedMutex, KeyedLocker, Goroutine, outside, waiting, holding, unlocked, leave, set_lock,
  set_mutex,
}
use tg_files.Store.Locks.Counting.{uses, holds, sum, sum-append, All-split, All-join}
use tg_files.Store.Locks.Sound.{Points, IsSound, All-Points}

module _ (l : KeyedLocker) (xs ys : List Goroutine) (name : Text) (p : ℕ) where
  abbrev dropped : ℕ → KeyedMutex
  dropped = set_mutex p (record { locked = (l.heap p).locked; refs = (l.heap p).refs - 1 }) l.heap

  abbrev emptied : KeyedLocker
  emptied = record l { heap = dropped; locks = set_lock name none l.locks }

  leave-eq-emptied :
      ((l.heap p).refs - 1 == 0) ≡ true → l.locks name ≡ some p → leave name p l ≡ emptied
  unfolding leave
  leave-eq-emptied last here =
      let same : (p == p) ≡ true = (==_iff p p).1 refl in rw (last, here, same, leave) refl

  leave-eq-dropped :
      ((l.heap p).refs - 1 == 0) ≡ false → leave name p l ≡ record l { heap = dropped }
  unfolding leave
  leave-eq-dropped more = rw (more, leave) refl

  still_there :
      (n : Text) (r : ℕ)
      → l.locks name ≡ some p
      → l.locks n ≡ some r
      → (r == p) ≡ false
      → set_lock name none l.locks n ≡ some r
  still_there n r here there other = elim (Bool-cases (text_eq n name)) [
    | inl equal ↦
        let same : l.locks name ≡ some r =
          subst (λ t. l.locks t ≡ some r) (eq_of_text_eq n name equal) there in
        ground (arith, ==_iff r p)
    | inr differs ↦ rw differs there
  ]

  -- Nobody else points to the entry that is deleted.
  All-emptied :
      (gs : List Goroutine)
      → l.locks name ≡ some p
      → sum (uses p) gs ≡ 0
      → All (Points l) gs
      → All (Points emptied) gs
  All-emptied [] here none_left h = tt
  All-emptied (outside ∷ gs) here none_left (q, h) = (tt, All-emptied gs here (ground arith) h)
  All-emptied (waiting n r ∷ gs) here none_left (q, h) =
      (still_there n r here q (ground arith), All-emptied gs here (ground arith) h)
  All-emptied (holding n r ∷ gs) here none_left (q, h) =
      (still_there n r here q (ground arith), All-emptied gs here (ground arith) h)
  All-emptied (unlocked n r ∷ gs) here none_left (q, h) =
      (still_there n r here q (ground arith), All-emptied gs here (ground arith) h)

  counted_left :
      (q : ℕ)
      → IsSound l (xs ++ unlocked name p ∷ ys)
      → (dropped q).refs ≡ sum (uses q) (xs ++ outside ∷ ys)
  counted_left q h = ground (
    arith,
    h.counted q,
    ==_iff q p,
    sum-append (uses q) xs (unlocked name p) ys,
    sum-append (uses q) xs outside ys,
  )

  exclusive_left :
      (q : ℕ)
      → IsSound l (xs ++ unlocked name p ∷ ys)
      → sum (holds q) (xs ++ outside ∷ ys) ≡ (if (dropped q).locked then 1 else 0)
  exclusive_left q h = ground (
    arith,
    h.exclusive q,
    ==_iff q p,
    sum-append (holds q) xs (unlocked name p) ys,
    sum-append (holds q) xs outside ys,
  )

  emptied-cases :
      (n : Text) (q : ℕ)
      → emptied.locks n ≡ some q
      → (text_eq n name ≡ false) × (l.locks n ≡ some q)
  emptied-cases n q e = elim (Bool-cases (text_eq n name)) [
    | inl equal ↦ ground arith
    | inr other ↦ (other, ground arith)
  ]

  emptied-IsSound :
      ((l.heap p).refs - 1 == 0) ≡ true
      → IsSound l (xs ++ unlocked name p ∷ ys)
      → IsSound emptied (xs ++ outside ∷ ys)
  emptied-IsSound last h =
      let (here, hx, hy) = All-split (Points l) xs (unlocked name p) ys h.known in
      let total = sum-append (uses p) xs (unlocked name p) ys in
      let count = h.counted p in
      let same : (p == p) ≡ true = (==_iff p p).1 refl in
      record {
        known =
            All-join (Points emptied) xs outside ys tt
              (All-emptied xs here (ground (arith, total, count)) hx)
              (All-emptied ys here (ground (arith, total, count)) hy);
        counted = λ q. counted_left q h;
        exclusive = λ q. exclusive_left q h;
        used = λ n q e.
            let (other, old) = emptied-cases n q e in
            elim (Bool-cases (q == p)) [
              | inl equal ↦
                  let s : n ≡ name =
                    h.single n name p (subst (λ t. l.locks n ≡ some t) ((==_iff q p).0 equal) old)
                      here in
                  ground (arith, text_eq_iff n name)
              | inr differs ↦ ground (arith, h.used n q old)
            ];
        fresh = λ n q e. h.fresh n q (emptied-cases n q e).1;
        single = λ n o q e f. h.single n o q (emptied-cases n q e).1 (emptied-cases o q f).1;
      }

  pub leaves-IsSound :
      IsSound l (xs ++ unlocked name p ∷ ys) → IsSound (leave name p l) (xs ++ outside ∷ ys)
  leaves-IsSound h =
      let (here, hx, hy) = All-split (Points l) xs (unlocked name p) ys h.known in
      elim (Bool-cases ((l.heap p).refs - 1 == 0)) [
        | inl last ↦ rw (leave-eq-emptied last here) (emptied-IsSound last h)
        | inr more ↦
            let l' : KeyedLocker = record l { heap = dropped } in
            rw (leave-eq-dropped more) (record {
              known =
                  All-join (Points l') xs outside ys tt (All-Points l l' xs (λ n q e. e) hx)
                    (All-Points l l' ys (λ n q e. e) hy);
              counted = λ q. counted_left q h;
              exclusive = λ q. exclusive_left q h;
              used = λ n q e. ground (arith, h.used n q e, ==_iff q p);
              fresh = h.fresh;
              single = h.single;
            })
      ]
