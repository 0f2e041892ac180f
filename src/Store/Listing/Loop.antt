-- ===== src/Store/Listing/Loop.antt =====
-- ListObjects: its pages add up to one walk over all that stands behind the cursor.
use tg_files.Common.{
  ℕ, zero, suc, ◌≤◌, ◌<◌, ◌-◌, ◌+◌, ◌*◌, ok_injective, Text, Bool, false, List, [], ◌∷◌, ◌++◌, some,
  ◌≡◌, refl, arith, inl, inr, take, drop, take-drop, ap, ◌∙◌, sym, ok, err, Result, length,
  take_empty, drop_short, length-drop_long, length-append, append_assoc, ltb, leb, Bool-cases,
  if_true, if_false, if◌then◌else◌, subst,
}
use tg_files.Golang.Int64.{ℤ, pos, pos_part, ltb_ℤ, wrap64}
use tg_files.Metadata.Types.{Object, Db}
use tg_files.Metadata.Sql.{Session, DbError, engine}
use tg_files.Metadata.Sql.Reads.{Reads, Reads-behind}
use tg_files.Metadata.Table.{Unique}
use tg_files.Metadata.Statements.{same_object, object_key}
use tg_files.Store.Listing.Entry.{
  ListObjectsInput, Listing, Pass, go_on, page_full, filled, walk, and_then, move_to, emitted,
}
use tg_files.Store.Listing.{
  Listed, Passed, next_page, pass_prefix, list_loop, list_page, after_page, settle_prefix,
  query_limit, advance_continuation_past_prefix,
}
use tg_files.Store.Listing.Pages.{behind, next_page-Reads, behind-page, behind-resume}
use tg_files.Store.Listing.Passing.{advance_continuation_past_prefix-Passes}
use tg_files.Store.Listing.Walking.{
  walk-append, walk_go_on-last, walk_go_on-room, walk_filled-split,
}

-- The listing behind a walk over everything, and whether more keys follow a last prefix.
unfoldable pub settled : ListObjectsInput → Db → Pass → Listing × Bool
unfolding pass_prefix behind
settled input db (go_on st) = (st, false)
settled input db (page_full st) = (st, false)
settled input db (filled st prefix) =
    let passed = pass_prefix input prefix (behind input st.after_key db) st.after_key in
    (move_to passed.0 st, passed.1)

at_least_two : (n : ℤ) → 2 ≤ (if ltb_ℤ n (pos 2) then 2 else pos_part n)
at_least_two n = ground arith

query_limit-ge : (remaining : ℕ) → 2 ≤ query_limit remaining
unfolding query_limit
query_limit-ge remaining = at_least_two (wrap64 (pos (remaining * 4 + 1)))

module _ (limit : ℕ) (input : ListObjectsInput) (st : Listing) (s : Session) where
  abbrev pub one_pass : Listing × Bool
  one_pass = settled input s.db (walk limit input (behind input st.after_key s.db) st)

  -- What the loop has to return from a listing on the session.
  abbrev pub Lists : Listed → Type 0
  Lists result =
      (out : Result DbError (Listing × Bool) × Session) × (result ≡ some out) × Reads s one_pass out

  module _ (unique : Unique object_key same_object s.db.objects)
      (advance : Text → Text → Session → Passed) (continue : Listing → Session → Listed) (size : ℕ)
      (positive : 0 < size) (s' : Session) (same : s'.db ≡ s.db)
      (fewer : length s'.faults ≤ length s.faults) where
    answered : (v : Listing × Bool) → one_pass ≡ v → Lists (some (ok v, s'))
    answered v e = ((ok v, s'), refl, (same, fewer, inl (ap ok (sym e))))

    abbrev all : List Object
    all = behind input st.after_key s.db

    whole :
        (p : Pass)
        → walk limit input (take size all) st ≡ p
        → one_pass ≡ settled input s.db (and_then p (walk limit input (drop size all)))
    whole p e =
        ap (λ l. settled input s.db (walk limit input l st)) (sym (take-drop size all))
        ∙ ap (settled input s.db) (walk-append limit input (take size all) (drop size all) st)
        ∙ ap (λ p. settled input s.db (and_then p (walk limit input (drop size all)))) e

    -- The call of advanceContinuationPastPrefix behind the page.
    abbrev Advances : Text → Text → Type 0
    Advances prefix cursor =
        (out : Result DbError (Text × Bool) × Session) × (advance prefix cursor s' ≡ some out)
        × Reads s' (pass_prefix input prefix (behind input cursor s.db) cursor) out

    settle-Lists :
        (st' : Listing) (prefix : Text)
        → one_pass ≡ settled input s.db (filled st' prefix)
        → Advances prefix st'.after_key
        → Lists (settle_prefix st' (advance prefix st'.after_key s'))
    unfolding settle_prefix settled
    settle-Lists st' prefix e ((ok v, t), returns, (same', fewer', inl r)) =
        rw (returns, settle_prefix)
          (
            (ok (move_to v.0 st', v.1), t),
            refl,
            (
              same' ∙ same,
              omega arith,
              inl (
                  ap (λ (p : Text × Bool). ok (move_to p.0 st', p.1)) (ok_injective r)
                  ∙ ap ok (sym e)),
            ),
          )
    settle-Lists st' prefix e ((ok v, t), returns, (same', fewer', inr (r, h))) = cc
    settle-Lists st' prefix e ((err x, t), returns, (same', fewer', inl r)) = cc
    settle-Lists st' prefix e ((err x, t), returns, (same', fewer', inr (r, h))) =
        rw (returns, settle_prefix)
          ((err x, t), refl, (same' ∙ same, omega arith, inr (cc, omega arith)))

    -- What the next round has to return from the listing behind the page.
    abbrev Continues : Listing → Type 0
    Continues st' =
        (out : Result DbError (Listing × Bool) × Session) × (continue st' s' ≡ some out)
        × Reads s' (settled input s.db (walk limit input (drop size all) st')) out

    module _ (room : leb limit (emitted st) ≡ false)
        (advances : (prefix cursor : Text)
          → length (behind input cursor s.db) ≤ length all
          → Advances prefix cursor)
        (continues : (st' : Listing)
          → leb limit (emitted st') ≡ false
          → behind input st'.after_key s.db ≡ drop size all
          → length (drop size all) < length all
          → Continues st') where
      filled-Lists :
          (st' : Listing) (prefix : Text)
          → walk limit input (take size all) st ≡ filled st' prefix
          → Lists (settle_prefix st' (advance prefix st'.after_key s'))
      filled-Lists st' prefix e =
          let (before, o, rest, split, at) =
            walk_filled-split limit input (take size all) st st' prefix e in
          let parts : all ≡ before ++ o ∷ (rest ++ drop size all) =
            sym (take-drop size all)
            ∙ ap (λ l. l ++ drop size all) split
            ∙ append_assoc before (o ∷ rest) (drop size all) in
          let there : behind input st'.after_key s.db ≡ rest ++ drop size all =
            ap (λ k. behind input k s.db) at
            ∙ behind-resume input s.db unique st.after_key before o (rest ++ drop size all) parts in
          settle-Lists st' prefix (whole (filled st' prefix) e ∙ unfold and_then in refl) (
            advances prefix st'.after_key (
              omega (
                arith,
                ap length there,
                ap length parts,
                length-append {0} before (o ∷ (rest ++ drop size all)),
              )))

      go_on-Lists :
          (o : Object) (objects : List Object) (st' : Listing)
          → take size all ≡ o ∷ objects
          → walk limit input (take size all) st ≡ go_on st'
          → Lists (after_page (ltb (length (o ∷ objects)) size) advance continue (go_on st') s')
      unfolding after_page and_then
      go_on-Lists o objects st' page e = elim (Bool-cases (ltb (length (o ∷ objects)) size)) [
        | inl short ↦ subst Lists (sym (if_true _ _ short)) (
            answered (st', false)
              (whole (go_on st') e
                ∙ ap (λ l. settled input s.db (walk limit input l st'))
                    (drop_short size all (rw page (ground arith)))
                ∙ unfold settled walk in refl))
        | inr long ↦
            let (out, returns, reads) =
              continues st' (walk_go_on-room limit input (take size all) st st' e room)
                (ap (λ k. behind input k s.db)
                    (walk_go_on-last limit input o objects st st' (rw (← page) e))
                  ∙ behind-page input s.db unique st.after_key size o objects page)
                (length-drop_long size all positive (rw page (ground arith))) in
            subst Lists (sym (if_false _ _ long))
              (out, returns, rw (whole (go_on st') e) (Reads-behind s s' _ out same fewer reads))
      ]

      after-Lists :
          (o : Object) (objects : List Object) (p : Pass)
          → take size all ≡ o ∷ objects
          → walk limit input (take size all) st ≡ p
          → Lists (after_page (ltb (length (o ∷ objects)) size) advance continue p s')
      unfolding after_page and_then
      after-Lists o objects (go_on st') page e = go_on-Lists o objects st' page e
      after-Lists o objects (page_full st') page e =
          answered (st', false) (whole (page_full st') e ∙ unfold settled in refl)
      after-Lists o objects (filled st' prefix) page e = filled-Lists st' prefix e

      pub list_page-Lists :
          (page : List Object)
          → take size all ≡ page
          → Lists (list_page limit input size advance continue st (ok page) s')
      unfolding list_page
      list_page-Lists [] e =
          answered (st, false)
            (ap (λ l. settled input s.db (walk limit input l st)) (take_empty size all positive e)
              ∙ unfold settled walk in refl)
      list_page-Lists (o ∷ objects) e =
          after-Lists o objects (walk limit input (o ∷ objects) st) e
            (ap (λ l. walk limit input l st) e)

-- The loop of ListObjects returns when its fuel is above the number of objects behind the cursor: the
-- result of one walk over these, or the engine's error.
pub list_loop-Lists :
    (fuel limit : ℕ) (input : ListObjectsInput) (st : Listing) (s : Session)
    → Unique object_key same_object s.db.objects
    → leb limit (emitted st) ≡ false
    → length (behind input st.after_key s.db) < fuel
    → Lists limit input st s (list_loop fuel limit input st s)
unfolding list_loop
list_loop-Lists zero limit input st s unique room h = elim h [ ]
list_loop-Lists (suc fuel) limit input st s unique room h =
    let size = query_limit (limit - emitted st) in
    let positive : 0 < size = omega (arith, query_limit-ge (limit - emitted st)) in
    let (r, s') = next_page input st.after_key size s in
    let (same, fewer, outcome) = next_page-Reads input st.after_key size s positive in
    let unique' = subst (λ (d : Db). Unique object_key same_object d.objects) (sym same) unique in
    subst (Lists limit input st s) (sym (if_false _ _ room)) (elim outcome [
      | inl e ↦ rw e (
          list_page-Lists limit input st s unique
            (advance_continuation_past_prefix (suc fuel) input) (list_loop fuel limit input) size
            positive s' same fewer room
            (λ prefix cursor within.
              let here : behind input cursor s'.db ≡ behind input cursor s.db =
                ap (λ d. behind input cursor d) same in
              let enough : length (behind input cursor s'.db) < suc fuel = rw here (omega arith) in
              rw (← here) (
                advance_continuation_past_prefix-Passes input prefix (suc fuel) cursor s' unique'
                  enough))
            (λ st' room' there shorter.
              let here : behind input st'.after_key s'.db
                  ≡ drop size (behind input st.after_key s.db) =
                ap (λ d. behind input st'.after_key d) same ∙ there in
              let enough : length (behind input st'.after_key s'.db) < fuel =
                rw here (omega arith) in
              subst
                (λ (d : Db).
                  (out : Result DbError (Listing × Bool) × Session) × (list_loop fuel limit input
                      st' s'
                    ≡ some out)
                  × Reads s'
                      (settled input d
                        (walk limit input (drop size (behind input st.after_key s.db)) st'))
                      out)
                same (rw (← here) (list_loop-Lists fuel limit input st' s' unique' room' enough)))
            (take size (behind input st.after_key s.db)) refl)
      | inr (e, refuses) ↦
          rw (e, list_page) ((err engine, s'), refl, (same, fewer, inr (refl, refuses)))
    ])
