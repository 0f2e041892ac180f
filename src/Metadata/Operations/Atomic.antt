-- ===== src/Metadata/Operations/Atomic.antt =====
-- A writing method that fails has changed nothing: each is one statement, or one transaction.
use tg_files.Common.{Text, ◌≡◌, arith, List, [], ◌∷◌, text_eq, select, map, length, refl, ap}
use tg_files.Metadata.Types.{LinkRow}
use tg_files.Metadata.Sql.{not_found}
use tg_files.Metadata.Sql.Atomic.{IsAtomic, IsAtomic-counted, atomic_rules}
use tg_files.Metadata.Objects
use tg_files.Metadata.Prefixes
use tg_files.Metadata.Buckets
use tg_files.Metadata.Links
use tg_files.Metadata.Links.{revoked_row, revoke_rows}
use tg_files.Metadata.Operations.{Operation, run}

revoked_none :
    (token : Text) (rows : List LinkRow)
    → length (select (λ r. text_eq r.token token) rows) ≡ 0
    → map (revoked_row token) rows ≡ rows
unfolding revoked_row
revoked_none token [] h = refl
revoked_none token (r ∷ rows) h = ground (arith, revoked_none token rows)

-- RevokeDirectLink fails behind its statement, when the statement touched no row.
revoke_direct_link-IsAtomic : (token : Text) → IsAtomic (Links.revoke_direct_link token)
unfolding Links.revoke_direct_link revoke_rows
revoke_direct_link-IsAtomic token =
    IsAtomic-counted (revoke_rows token) not_found (λ db h.
      ap (λ rows. record db { direct_links = rows }) (revoked_none token db.direct_links h))

-- Every writing method of the store is atomic: when it fails, by its own tests, by a constraint or
-- by the engine at any of its statements or its commit, all four tables are as they were.
pub run-IsAtomic : (op : Operation) → IsAtomic (run op)
unfolding run
run-IsAtomic (Operation.put_object object chunks) = unfold Objects.put_object in search atomic_rules
run-IsAtomic (Operation.delete_object bucket key) =
    unfold Objects.delete_object in search atomic_rules
run-IsAtomic (Operation.copy_object bucket src dst overwrite now) =
    unfold Objects.copy_object in search atomic_rules
run-IsAtomic (Operation.move_object bucket src dst overwrite now) =
    unfold Objects.move_object in search atomic_rules
run-IsAtomic (Operation.copy_prefix bucket src dst overwrite now) =
    unfold Prefixes.copy_prefix in search atomic_rules
run-IsAtomic (Operation.move_prefix bucket src dst overwrite now) =
    unfold Prefixes.move_prefix in search atomic_rules
run-IsAtomic (Operation.delete_prefix bucket prefix) =
    unfold Prefixes.delete_prefix in search atomic_rules
run-IsAtomic (Operation.upsert_bucket bucket) = unfold Buckets.upsert_bucket in search atomic_rules
run-IsAtomic (Operation.delete_bucket bucket) = unfold Buckets.delete_bucket in search atomic_rules
run-IsAtomic (Operation.disable_buckets_except keep_names) =
    unfold Buckets.disable_buckets_except in search atomic_rules
run-IsAtomic (Operation.rename_bucket old_name new_name) =
    unfold Buckets.rename_bucket in search atomic_rules
run-IsAtomic (Operation.create_direct_link link) =
    unfold Links.create_direct_link in search atomic_rules
run-IsAtomic (Operation.revoke_direct_link token) = revoke_direct_link-IsAtomic token
run-IsAtomic (Operation.increment_direct_link_click token) =
    unfold Links.increment_direct_link_click in search atomic_rules
