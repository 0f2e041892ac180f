-- ===== src/Store/Listing/Passing.antt =====
-- advanceContinuationPastPrefix: its pages add up to one pass over all that stands behind the cursor.
use tg_files.Common.{
  ℕ, zero, suc, ◌≤◌, ◌<◌, Text, Bool, true, false, List, [], ◌∷◌, ◌++◌, some, ◌≡◌, refl, arith, inl,
  inr, take, drop, take-drop, ap, ◌∙◌, sym, ok, err, Result, length, ltb, Bool-cases, if◌then◌else◌,
  subst, if_true, if_false, take_empty, drop_short, length-drop_long,
}
use tg_files.Metadata.Types.{Object, Db}
use tg_files.Metadata.Sql.{Session, DbError, engine}
use tg_files.Metadata.Sql.Reads.{Reads, Reads-behind}
use tg_files.Metadata.Table.{Unique}
use tg_files.Metadata.Statements.{same_object, object_key}
use tg_files.Store.Listing.Entry.{ListObjectsInput}
use tg_files.Store.Listing.{
  next_page, pass_prefix, advance_continuation_past_prefix, Passed, advance_page,
}
use tg_files.Store.Listing.Pages.{behind, next_page-Reads, last_of, behind-page}

module _ (input : ListObjectsInput) (prefix : Text) where
  pass_prefix-append :
      (xs ys : List Object) (cursor : Text)
      → (pass_prefix input prefix xs cursor).1 ≡ false
      → pass_prefix input prefix (xs ++ ys) cursor
        ≡ pass_prefix input prefix ys (pass_prefix input prefix xs cursor).0
  unfolding pass_prefix
  pass_prefix-append [] ys cursor h = refl
  pass_prefix-append (x ∷ xs) ys cursor h = ground (arith, pass_prefix-append xs ys x.key)

  pass_prefix-stopped :
      (xs ys : List Object) (cursor : Text)
      → (pass_prefix input prefix xs cursor).1 ≡ true
      → pass_prefix input prefix (xs ++ ys) cursor ≡ pass_prefix input prefix xs cursor
  unfolding pass_prefix
  pass_prefix-stopped [] ys cursor h = ground arith
  pass_prefix-stopped (x ∷ xs) ys cursor h = ground (arith, pass_prefix-stopped xs ys x.key)

  pass_prefix-last :
      (o : Object) (objects : List Object) (cursor : Text)
      → (pass_prefix input prefix (o ∷ objects) cursor).1 ≡ false
      → (pass_prefix input prefix (o ∷ objects) cursor).0 ≡ (last_of o objects).key
  unfolding pass_prefix
  pass_prefix-last o [] cursor h = ground arith
  pass_prefix-last o (p ∷ objects) cursor h = ground (arith, pass_prefix-last p objects o.key)

  -- A pass over the first objects, then one over the others.
  pass_prefix-page :
      (n : ℕ) (objects : List Object) (cursor : Text)
      → pass_prefix input prefix objects cursor ≡ (
          if (pass_prefix input prefix (take n objects) cursor).1
          then pass_prefix input prefix (take n objects) cursor
          else pass_prefix input prefix
              (drop n objects)
              (pass_prefix input prefix (take n objects) cursor).0)
  pass_prefix-page n objects cursor =
      let split = ap (λ l. pass_prefix input prefix l cursor) (sym (take-drop n objects)) in
      elim (Bool-cases (pass_prefix input prefix (take n objects) cursor).1) [
        | inl stopped ↦
            split
            ∙ pass_prefix-stopped (take n objects) (drop n objects) cursor stopped
            ∙ sym (if_true _ _ stopped)
        | inr passed ↦
            split
            ∙ pass_prefix-append (take n objects) (drop n objects) cursor passed
            ∙ sym (if_false _ _ passed)
      ]

module _ (input : ListObjectsInput) (prefix : Text) (cursor : Text) (s : Session) where
  -- What a call of advanceContinuationPastPrefix on the session has to return.
  abbrev pub Passes : Passed → Type 0
  Passes result =
      (out : Result DbError (Text × Bool) × Session) × (result ≡ some out)
      × Reads s (pass_prefix input prefix (behind input cursor s.db) cursor) out

  module _ (unique : Unique object_key same_object s.db.objects)
      (continue : Text → Session → Passed) (s' : Session) (same : s'.db ≡ s.db)
      (fewer : length s'.faults ≤ length s.faults) where
    answered :
        (v : Text × Bool)
        → pass_prefix input prefix (behind input cursor s.db) cursor ≡ v
        → Passes (some (ok v, s'))
    answered v e = ((ok v, s'), refl, (same, fewer, inl (ap ok (sym e))))

    -- What the next round has to return from the cursor behind the page.
    abbrev Continues : Text → Type 0
    Continues c =
        (out : Result DbError (Text × Bool) × Session) × (continue c s' ≡ some out)
        × Reads s' (pass_prefix input prefix (drop 32 (behind input cursor s.db)) c) out

    continued :
        (c : Text)
        → pass_prefix input prefix (behind input cursor s.db) cursor
          ≡ pass_prefix input prefix (drop 32 (behind input cursor s.db)) c
        → Continues c
        → Passes (continue c s')
    continued c e (out, returns, reads) =
        (out, returns, rw e (Reads-behind s s' _ out same fewer reads))

    advance_page-Passes :
        (page : List Object)
        → take 32 (behind input cursor s.db) ≡ page
        → ((c : Text)
            → behind input c s.db ≡ drop 32 (behind input cursor s.db)
            → length (drop 32 (behind input cursor s.db)) < length (behind input cursor s.db)
            → Continues c)
        → Passes (advance_page input prefix cursor continue (ok page) s')
    unfolding advance_page
    advance_page-Passes [] e rest =
        answered (cursor, false)
          (ap (λ l. pass_prefix input prefix l cursor)
              (take_empty 32 (behind input cursor s.db) (omega arith) e)
            ∙ unfold pass_prefix in refl)
    advance_page-Passes (o ∷ objects) e rest =
        let all = behind input cursor s.db in
        let passed = pass_prefix input prefix (o ∷ objects) cursor in
        let whole : pass_prefix input prefix all cursor
            ≡ (if passed.1 then passed else pass_prefix input prefix (drop 32 all) passed.0) =
          rw e at (pass_prefix-page input prefix 32 all cursor) in
        elim (Bool-cases passed.1) [
          | inl stopped ↦
              subst Passes (sym (if_true _ _ stopped))
                (answered passed (whole ∙ if_true _ _ stopped))
          | inr through ↦
              subst Passes (sym (if_false _ _ through))
                (elim (Bool-cases (ltb (length (o ∷ objects)) 32)) [
                  | inl short ↦ subst Passes (sym (if_true _ _ short)) (
                      answered passed (
                        whole
                        ∙ if_false _ _ through
                        ∙ ap (λ l. pass_prefix input prefix l passed.0)
                            (drop_short 32 all (rw e (ground arith)))
                        ∙ unfold pass_prefix in ap (λ b. (passed.0, b)) (sym through)))
                  | inr long ↦ subst Passes (sym (if_false _ _ long)) (
                      continued passed.0 (whole ∙ if_false _ _ through) (
                        rest passed.0
                          (ap (λ k. behind input k s.db)
                              (pass_prefix-last input prefix o objects cursor through)
                            ∙ behind-page input s.db unique cursor 32 o objects e)
                          (length-drop_long 32 all (omega arith) (rw e (ground arith)))))
                ])
        ]

-- advanceContinuationPastPrefix returns when its fuel is above the number of objects behind the
-- cursor: the result of one pass over these, or the engine's error.
pub advance_continuation_past_prefix-Passes :
    (input : ListObjectsInput) (prefix : Text) (fuel : ℕ) (cursor : Text) (s : Session)
    → Unique object_key same_object s.db.objects
    → length (behind input cursor s.db) < fuel
    → Passes input prefix cursor s (advance_continuation_past_prefix fuel input prefix cursor s)
unfolding advance_continuation_past_prefix advance_page
advance_continuation_past_prefix-Passes input prefix zero cursor s unique h = elim h [ ]
advance_continuation_past_prefix-Passes input prefix (suc fuel) cursor s unique h =
    let (r, s') = next_page input cursor 32 s in
    let (same, fewer, outcome) = next_page-Reads input cursor 32 s (omega arith) in
    elim outcome [
      | inl e ↦ rw e (
          advance_page-Passes input prefix cursor s unique
            (advance_continuation_past_prefix fuel input prefix) s' same fewer
            (take 32 (behind input cursor s.db)) refl
            (λ c there shorter.
              let here : behind input c s'.db ≡ drop 32 (behind input cursor s.db) =
                ap (λ d. behind input c d) same ∙ there in
              let fewer_left : length (behind input c s'.db) < fuel = rw here (omega arith) in
              rw (← here) (
                advance_continuation_past_prefix-Passes input prefix fuel c s'
                  (subst (λ (d : Db). Unique object_key same_object d.objects) (sym same) unique)
                  fewer_left)))
      | inr (e, refuses) ↦
          rw (e, advance_page) ((err engine, s'), refl, (same, fewer, inr (refl, refuses)))
    ]
