-- ===== src/Storage.antt =====
-- internal/infrastructure/storage/mysql/key_storage.go. MySQL is a parameter: its statements on the
-- table `crypto_keys`, with the WHERE clause as a test of a row. A row is a key without the columns
-- that no modelled code reads; the order of rows is the statement's.
pub mod Columns
pub mod Kept
mod Runs
use hsm_service.Prelude.{
  ℕ, zero, suc, String, Bool, true, false, ◌&&◌, Option, none, some, List, [], ◌∷◌, str_eq,
}
use hsm_service.Domain.Errors.{
  GoError, plain, wrapped, new_domain_error, with_detail, error_text, code_text, key_not_found,
}
use hsm_service.Domain.Entities.{CryptographicKey}
use hsm_service.Exec.{Reply, ok, err}
use hsm_service.Storage.Columns.{
  inserted_row, by_id_columns, by_id_and_tenant_columns, by_owner_columns, list_columns,
}

-- `query_row` gives no row where the driver gives `sql.ErrNoRows`. `query_rows` gives the rows, each
-- of which may fail to be scanned, and the error after the last. `exec_delete` gives the number of
-- rows, which may fail after the statement.
pub record Database (W : Type 0) : Type 0 where
  pub exec_insert : CryptographicKey → W → Option GoError × W
  pub query_row : (CryptographicKey → Bool) → W → Reply (Option CryptographicKey) × W
  pub query_rows :
      (CryptographicKey → Bool) → W → Reply (List (Reply CryptographicKey) × Option GoError) × W
  pub exec_delete : (CryptographicKey → Bool) → W → Reply (Reply ℕ) × W

abbrev no_rows : GoError
no_rows = plain "sql: no rows in result set"

saved_error : Option GoError → Option GoError
saved_error none = none
saved_error (some e) = some (wrapped "failed to get last insert id" e)

-- A lookup of one row, with the errors of a missing row and of the statement.
one_row :
    {W : Type 0}
    → GoError
    → (GoError → GoError)
    → (CryptographicKey → CryptographicKey)
    → Reply (Option CryptographicKey) × W
    → Reply CryptographicKey × W
one_row missing f columns (err e, w) = (err (f e), w)
one_row missing f columns (ok none, w) = (err missing, w)
one_row missing f columns (ok (some row), w) = (ok (columns row), w)

-- The loop over `rows`.
scanned : List (Reply CryptographicKey) → Reply (List CryptographicKey)
scanned [] = ok []
scanned (err e ∷ rest) = err (wrapped "failed to scan key" e)
scanned (ok row ∷ rest) = one_more (scanned rest)
  where
    one_more : Reply (List CryptographicKey) → Reply (List CryptographicKey)
    one_more (ok keys) = ok (list_columns row ∷ keys)
    one_more (err e) = err e

-- The error after the last row.
rows_ended : Reply (List CryptographicKey) → Option GoError → Reply (List CryptographicKey)
rows_ended (err e) last = err e
rows_ended (ok keys) none = ok keys
rows_ended (ok keys) (some e) = err (wrapped "rows error" e)

all_rows :
    {W : Type 0}
    → Reply (List (Reply CryptographicKey) × Option GoError) × W
    → Reply (List CryptographicKey) × W
unfolding scanned rows_ended
all_rows (err e, w) = (err (wrapped "failed to query keys" e), w)
all_rows (ok (rows, last), w) = (rows_ended (scanned rows) last, w)

deleted_error : Reply (Reply ℕ) → Option GoError
deleted_error (err e) = some (wrapped "failed to delete key" e)
deleted_error (ok (err e)) = some (wrapped "failed to get rows affected" e)
deleted_error (ok (ok zero)) = some (plain (code_text key_not_found))
deleted_error (ok (ok (suc n))) = none

abbrev missing_key : GoError
missing_key = plain (code_text key_not_found)

abbrev by_id_error : String → GoError → GoError
by_id_error message e =
    with_detail "original_error" (error_text e) (new_domain_error key_not_found message)

abbrev find_error : GoError → GoError
find_error = wrapped "failed to find key"

-- The WHERE clauses.
unfoldable pub has_id : String → CryptographicKey → Bool
has_id id row = str_eq row.id id

unfoldable pub has_id_and_tenant : String → String → CryptographicKey → Bool
has_id_and_tenant id tenant_id row = str_eq row.id id && str_eq row.tenant_id tenant_id

module _ {W : Type 0} (D : Database W) where
  unfoldable pub mysql_save : CryptographicKey → W → Option GoError × W
  unfolding inserted_row saved_error
  mysql_save key w = let (r, w') = D.exec_insert (inserted_row key) w in (saved_error r, w')

  unfoldable pub mysql_find_by_id : String → W → Reply CryptographicKey × W
  unfolding one_row by_id_columns has_id
  mysql_find_by_id id w =
      one_row (by_id_error "key not found" no_rows) (by_id_error "Error finding key") by_id_columns
        (D.query_row (has_id id) w)

  unfoldable pub mysql_find_by_id_and_tenant : String → String → W → Reply CryptographicKey × W
  unfolding one_row by_id_and_tenant_columns has_id_and_tenant
  mysql_find_by_id_and_tenant id tenant_id w =
      one_row missing_key find_error by_id_and_tenant_columns
        (D.query_row (has_id_and_tenant id tenant_id) w)

  unfoldable pub mysql_find_by_tenant : String → W → Reply (List CryptographicKey) × W
  unfolding all_rows
  mysql_find_by_tenant tenant_id w =
      all_rows (D.query_rows (λ row. str_eq row.tenant_id tenant_id) w)

  unfoldable pub mysql_find_by_owner : String → W → Reply CryptographicKey × W
  unfolding one_row by_owner_columns
  mysql_find_by_owner owner_id w =
      one_row missing_key find_error by_owner_columns
        (D.query_row (λ row. str_eq row.owner_id owner_id) w)

  unfoldable pub mysql_find_by_owner_type : String → W → Reply (List CryptographicKey) × W
  unfolding all_rows
  mysql_find_by_owner_type owner_type w =
      all_rows (D.query_rows (λ row. str_eq row.owner_type owner_type) w)

  unfoldable pub mysql_delete : String → W → Option GoError × W
  unfolding deleted_error has_id
  mysql_delete id w = let (r, w') = D.exec_delete (has_id id) w in (deleted_error r, w')
