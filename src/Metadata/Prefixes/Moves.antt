-- ===== src/Metadata/Prefixes/Moves.antt =====
-- What MovePrefix leaves at its source.
use tg_files.Common.{
  Text, Bool, true, false, ◌⊎◌, inl, inr, List, [], ◌∷◌, ◌≡◌, refl, ap, ◌∙◌, ok, err, Bool-cases,
  Result-cases, text_eq, text_eq_refl, Result,
}
use tg_files.Metadata.Types.{Db, Time, Object, Chunk}
use tg_files.Metadata.Sql.{DbError, not_found, same_source, calm, Session, exec}
use tg_files.Metadata.Sql.Calm.{
  bind_ok, bind_err, transaction_ok, transaction_err, pure-calm, raise-calm,
}
use tg_files.Metadata.Sql.Staying.{IsCalm, IsCalm-bind, IsCalm-exec, calm_rules}
use tg_files.Metadata.Statements.{insert_chunk}
use tg_files.Metadata.Like.{prefix_pattern, like-prefix_pattern}
use tg_files.Metadata.Objects.{get_object, insert_chunks, put_object_in_tx, object_exists_in_tx}
use tg_files.Metadata.Objects.RoundTrip.{view, get_object-eq-view}
use tg_files.Metadata.Prefixes.{move_prefix, copy_prefix_in_tx, copy_each, delete_prefix_in_tx}
use tg_files.Metadata.Prefixes.Deletes.{delete_prefix_in_tx-calm, swept, view-swept, is_below}

insert_chunks-IsCalm : (chunks : List Chunk) → IsCalm (insert_chunks chunks)
unfolding insert_chunks
insert_chunks-IsCalm [] = search calm_rules
insert_chunks-IsCalm (chunk ∷ chunks) =
    IsCalm-bind (exec (insert_chunk chunk)) (λ _. insert_chunks chunks)
      (IsCalm-exec (insert_chunk chunk)) (λ _. insert_chunks-IsCalm chunks)

put_object_in_tx-IsCalm :
    (object : Object) (chunks : List Chunk) → IsCalm (put_object_in_tx object chunks)
unfolding put_object_in_tx
put_object_in_tx-IsCalm object chunks = search (calm_rules, insert_chunks-IsCalm)

object_exists_in_tx-IsCalm : (bucket key : Text) → IsCalm (object_exists_in_tx bucket key)
unfolding object_exists_in_tx
object_exists_in_tx-IsCalm bucket key = search calm_rules

copy_each-IsCalm :
    (bucket src dst : Text) (overwrite : Bool) (now : Time) (created : Bool) (objects : List Object)
    → IsCalm (copy_each bucket src dst overwrite now created objects)
unfolding copy_each
copy_each-IsCalm bucket src dst overwrite now created [] = search calm_rules
copy_each-IsCalm bucket src dst overwrite now created (object ∷ objects) =
    search
      (
        calm_rules,
        put_object_in_tx-IsCalm,
        object_exists_in_tx-IsCalm,
        λ (c : Bool). copy_each-IsCalm bucket src dst overwrite now c objects,
      )
      depth 9

copy_prefix_in_tx-IsCalm :
    (bucket src dst : Text) (overwrite : Bool) (now : Time)
    → IsCalm (copy_prefix_in_tx bucket src dst overwrite now)
unfolding copy_prefix_in_tx
copy_prefix_in_tx-IsCalm bucket src dst overwrite now = search (calm_rules, copy_each-IsCalm)

-- The body of MovePrefix, by what the copying returns.
module _ (bucket src dst : Text) (overwrite : Bool) (now : Time) (db : Db) where
  abbrev copying : Result DbError Bool × Session
  copying = copy_prefix_in_tx bucket src dst overwrite now (calm db)

  after_copying : copying.1 ≡ calm copying.1.db
  after_copying =
      ap (λ faults. record { db = copying.1.db; faults = faults })
        ((copy_prefix_in_tx-IsCalm bucket src dst overwrite now).stays (calm db) refl)

  copied_as : (r : Result DbError Bool) → copying.0 ≡ r → copying ≡ (r, calm copying.1.db)
  copied_as r e = ap (λ q. (q, copying.1)) e ∙ ap (λ t. (r, t)) after_copying

  move_prefix_ok :
      (created : Bool)
      → text_eq src dst ≡ false
      → copying.0 ≡ ok created
      → move_prefix bucket src dst overwrite now (calm db)
        ≡ (ok created, calm (swept bucket (prefix_pattern src) copying.1.db))
  unfolding move_prefix
  move_prefix_ok created other e = rw other (
      transaction_ok _ db created (swept bucket (prefix_pattern src) copying.1.db) (
        bind_ok (copy_prefix_in_tx bucket src dst overwrite now) _ (calm db) created
          (copied_as (ok created) e)
        ∙ bind_ok (delete_prefix_in_tx bucket src) _ (calm copying.1.db) tt
            (delete_prefix_in_tx-calm bucket src copying.1.db)
        ∙ pure-calm created (calm (swept bucket (prefix_pattern src) copying.1.db))))

  move_prefix_err :
      (x : DbError)
      → text_eq src dst ≡ false
      → copying.0 ≡ err x
      → move_prefix bucket src dst overwrite now (calm db) ≡ (err x, calm db)
  unfolding move_prefix
  move_prefix_err x other e = rw other (
      transaction_err _ db x copying.1.db (
        bind_err (copy_prefix_in_tx bucket src dst overwrite now) _ (calm db) x
          (copied_as (err x) e)))

-- On a session whose engine refuses nothing, MovePrefix fails and leaves the tables as they were, or
-- it returns, and then GetObject finds nothing at any key of the bucket that begins with the source
-- prefix up to the case of ASCII letters: a copy whose key does so is gone too.
pub move_prefix-cases :
    (bucket src dst : Text) (overwrite : Bool) (now : Time) (db : Db) (k : Text)
    → is_below src k ≡ true
    → ((e : DbError) × (move_prefix bucket src dst overwrite now (calm db) ≡ (err e, calm db)))
      ⊎ ((created : Bool) × ((move_prefix bucket src dst overwrite now (calm db)).0 ≡ ok created)
          × ((get_object bucket k (move_prefix bucket src dst overwrite now (calm db)).1).0
              ≡ err not_found))
unfolding move_prefix
move_prefix-cases bucket src dst overwrite now db k below = elim (Bool-cases (text_eq src dst)) [
  | inl same ↦ inl (same_source, rw same (raise-calm same_source (calm db)))
  | inr other ↦
      let copied = (copying bucket src dst overwrite now db).1.db in
      elim (Result-cases (copying bucket src dst overwrite now db).0) [
        | inl (x, fails) ↦ inl (x, move_prefix_err bucket src dst overwrite now db x other fails)
        | inr (created, returns) ↦
            let done = move_prefix_ok bucket src dst overwrite now db created other returns in
            let swept_db = swept bucket (prefix_pattern src) copied in
            let gone : view bucket k swept_db ≡ err not_found =
              view-swept bucket (prefix_pattern src) bucket k copied
              ∙ rw (text_eq_refl bucket, like-prefix_pattern src k, below) refl in
            inr (
              created,
              ap (λ r. r.0) done,
              ap (λ r. (get_object bucket k r.1).0) done
                  ∙ ap (λ r. r.0) (get_object-eq-view bucket k swept_db)
                  ∙ gone,
            )
      ]
]
