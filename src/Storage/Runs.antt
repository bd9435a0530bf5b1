-- ===== src/Storage/Runs.antt =====
-- The theorem on the key storage at a concrete table of one row.
use hsm_service.Prelude.{
  ℕ, if◌then◌else◌, ◌≡◌, refl, Bool, true, false, Option, none, some, [], arith,
}
use hsm_service.Prelude.Int.{pos}
use hsm_service.Domain.Errors.{GoError, plain}
use hsm_service.Domain.Entities.{CryptographicKey}
use hsm_service.Exec.{Reply, ok, err}
use hsm_service.Storage.Columns.{blank}
use hsm_service.Storage.{
  Database, mysql_save, mysql_find_by_id, mysql_find_by_id_and_tenant, mysql_delete,
}
use hsm_service.Storage.Kept.{DatabaseLaws, without_owner, inactive_remains, mysql_find-save}

abbrev Table : Type 0
Table = Option CryptographicKey

insert_one : CryptographicKey → Table → Option GoError × Table
insert_one a none = (none, some a)
insert_one a (some b) = (some (plain "Duplicate entry"), some b)

select_one : (CryptographicKey → Bool) → Table → Reply (Option CryptographicKey) × Table
select_one p none = (ok none, none)
select_one p (some a) = (ok (if p a then some a else none), some a)

delete_one : (CryptographicKey → Bool) → Table → Reply (Reply ℕ) × Table
delete_one p none = (ok (ok 0), none)
delete_one p (some a) = if p a then (ok (ok 1), none) else (ok (ok 0), some a)

abbrev one_row_table : Database Table
one_row_table = record {
  exec_insert = insert_one;
  query_row = select_one;
  query_rows = λ p w. (ok ([], none), w);
  exec_delete = delete_one;
}

insert_one-inserted :
    (a : CryptographicKey) (w : Table) → (insert_one a w).0 ≡ none → (insert_one a w).1 ≡ some a
unfolding insert_one
insert_one-inserted a none h = refl
insert_one-inserted a (some b) h = absurd (ground (arith, h))

insert_one-duplicate :
    (a b : CryptographicKey) (w : Table)
    → w ≡ some a
    → a.id ≡ b.id
    → (e : GoError) × ((insert_one b w).0 ≡ some e)
unfolding insert_one
insert_one-duplicate a b none h same = absurd (ground (arith, h))
insert_one-duplicate a b (some c) h same = (plain "Duplicate entry", refl)

select_one-found :
    (p : CryptographicKey → Bool) (a : CryptographicKey) (w : Table)
    → (select_one p w).0 ≡ ok (some a)
    → (w ≡ some a) × (p a ≡ true)
unfolding select_one
select_one-found p a none h = absurd (ground (arith, h))
select_one-found p a (some b) h = ground (arith, h)

select_one-misses :
    (p : CryptographicKey → Bool) (a : CryptographicKey) (w : Table)
    → w ≡ some a
    → p a ≡ true
    → (select_one p w).0 ≡ ok none
    → ⊥
unfolding select_one
select_one-misses p a none h hp e = absurd (ground (arith, h))
select_one-misses p a (some b) h hp e = ground (arith, h, hp, e)

delete_one-gone :
    (p : CryptographicKey → Bool) (a : CryptographicKey) (w : Table) (n : ℕ)
    → (delete_one p w).0 ≡ ok (ok n)
    → (delete_one p w).1 ≡ some a
    → p a ≡ false
unfolding delete_one
delete_one-gone p a none n h e = absurd (ground (arith, e))
delete_one-gone p a (some b) n h e = ground (arith, h, e)

one_row_laws : DatabaseLaws one_row_table
one_row_laws = record {
  Holds = λ a w. w ≡ some a;
  unique = λ a b w ha hb same. ground (arith, ha, hb);
  inserted = insert_one-inserted;
  duplicate = insert_one-duplicate;
  found = select_one-found;
  not_missed = select_one-misses;
  deleted = delete_one-gone;
}

abbrev signing_key : CryptographicKey
signing_key = record blank {
  id = "key-1";
  tenant_id = "tenant-1";
  algorithm = "RSA";
  key_size = pos 2048;
  is_active = true;
}

mysql_find-save_example :
    let D = one_row_table in
    let w' = (mysql_save D signing_key none).1 in
    ((mysql_find_by_id_and_tenant D "key-1" "tenant-1" w').0 ≡ ok (without_owner signing_key))
    × ((mysql_find_by_id D "key-1" w').0 ≡ ok (inactive_remains signing_key))
    × ((x : GoError) × ((mysql_save D signing_key w').0 ≡ some x))
    × ((mysql_find_by_id_and_tenant D "key-1" "tenant-1" (mysql_delete D "key-1" w').1).0
        ≡ err (plain "KEY_NOT_FOUND"))
unfolding mysql_save mysql_find_by_id mysql_find_by_id_and_tenant mysql_delete insert_one select_one
    delete_one
mysql_find-save_example =
    let w' = (mysql_save one_row_table signing_key none).1 in
    mysql_find-save one_row_table one_row_laws signing_key signing_key none w'
      (some (record signing_key { is_hardware_backed = true }))
      (some (record signing_key { is_hardware_backed = true })) none refl refl refl refl refl refl
