-- ===== src/Storage/Kept.antt =====
-- key_storage.go: what a saved key comes back as.
use hsm_service.Prelude.{
  ℕ, zero, suc, ◌≡◌, refl, ap, ◌∙◌, Bool, true, false, Option, none, some, eq_iff, eq_refl, arith,
}
use hsm_service.Prelude.Int.{pos}
use hsm_service.Domain.Errors.{GoError, plain, wrapped, code_text}
use hsm_service.Domain.Entities.{CryptographicKey}
use hsm_service.Exec.{Reply, ok, err}
use hsm_service.Storage.Columns.{inserted_row, by_id_columns, by_id_and_tenant_columns}
use hsm_service.Storage.{
  Database, saved_error, one_row, deleted_error, missing_key, by_id_error, no_rows, find_error,
  has_id, has_id_and_tenant, mysql_save, mysql_find_by_id, mysql_find_by_id_and_tenant,
  mysql_delete,
}

-- What MySQL promises of a table whose primary key is `id`: an inserted row is held, a row with a
-- held id is refused, a SELECT answers with a held row that the clause accepts and misses none, and
-- after a DELETE no held row is accepted by its clause.
pub record DatabaseLaws {W : Type 0} (D : Database W) : Type 1 where
  pub Holds : CryptographicKey → W → Type 0
  pub unique : (a b : CryptographicKey) (w : W) → Holds a w → Holds b w → a.id ≡ b.id → a ≡ b
  pub inserted :
      (a : CryptographicKey) (w : W) → (D.exec_insert a w).0 ≡ none → Holds a (D.exec_insert a w).1
  pub duplicate :
      (a b : CryptographicKey) (w : W)
      → Holds a w
      → a.id ≡ b.id
      → (e : GoError) × ((D.exec_insert b w).0 ≡ some e)
  pub found :
      (p : CryptographicKey → Bool) (a : CryptographicKey) (w : W)
      → (D.query_row p w).0 ≡ ok (some a)
      → Holds a w × (p a ≡ true)
  pub not_missed :
      (p : CryptographicKey → Bool) (a : CryptographicKey) (w : W)
      → Holds a w
      → p a ≡ true
      → (D.query_row p w).0 ≡ ok none
      → ⊥
  pub deleted :
      (p : CryptographicKey → Bool) (a : CryptographicKey) (w : W) (n : ℕ)
      → (D.exec_delete p w).0 ≡ ok (ok n)
      → Holds a (D.exec_delete p w).1
      → p a ≡ false

-- A saved key without its owner, parent, certification level, alias, hardware flag, slot and
-- expiration.
abbrev pub without_owner : CryptographicKey → CryptographicKey
without_owner k = record {
  id = k.id;
  tenant_id = k.tenant_id;
  owner_type = "";
  owner_id = "";
  parent_key_id = none;
  cert_level = pos 0;
  name = k.name;
  key_alias = "";
  algorithm = k.algorithm;
  key_size = k.key_size;
  purpose = k.purpose;
  public_key = k.public_key;
  key_handle = k.key_handle;
  key_label = k.key_label;
  is_hardware_backed = false;
  hsm_slot_id = "";
  is_active = k.is_active;
  version = k.version;
  expiration_date = 0;
}

-- Its id, its name and its public key alone.
abbrev pub inactive_remains : CryptographicKey → CryptographicKey
inactive_remains k = record {
  id = k.id;
  tenant_id = "";
  owner_type = "";
  owner_id = "";
  parent_key_id = none;
  cert_level = pos 0;
  name = k.name;
  key_alias = "";
  algorithm = "";
  key_size = pos 0;
  purpose = "";
  public_key = k.public_key;
  key_handle = "";
  key_label = "";
  is_hardware_backed = false;
  hsm_slot_id = "";
  is_active = false;
  version = 0;
  expiration_date = 0;
}

module _ {W : Type 0} (D : Database W) (L : DatabaseLaws D) where
  -- A SELECT that answers finds the one held row that its clause, which fixes the id, accepts.
  selected :
      (p : CryptographicKey → Bool) (a : CryptographicKey) (w : W) (o : Option CryptographicKey)
      → L.Holds a w
      → p a ≡ true
      → ((b : CryptographicKey) → p b ≡ true → b.id ≡ a.id)
      → (D.query_row p w).0 ≡ ok o
      → (D.query_row p w).0 ≡ ok (some a)
  selected p a w none h hp fixed e = absurd (L.not_missed p a w h hp e)
  selected p a w (some b) h hp fixed e =
      let (hb, pb) = L.found p b w e in e ∙ ap (λ c. ok (some c)) (L.unique b a w hb h (fixed b pb))

  one_row_found :
      (missing : GoError) (f : GoError → GoError) (columns : CryptographicKey → CryptographicKey)
      (r : Reply (Option CryptographicKey) × W) (a : CryptographicKey)
      → r.0 ≡ ok (some a)
      → (one_row missing f columns r).0 ≡ ok (columns a)
  unfolding one_row
  one_row_found missing f columns (ok (some b), w) a h = ground (arith, h)
  one_row_found missing f columns (ok none, w) a h = absurd (ground (arith, h))
  one_row_found missing f columns (err e, w) a h = absurd (ground (arith, h))

  one_row_missing :
      (missing : GoError) (f : GoError → GoError) (columns : CryptographicKey → CryptographicKey)
      (r : Reply (Option CryptographicKey) × W)
      → r.0 ≡ ok none
      → (one_row missing f columns r).0 ≡ err missing
  unfolding one_row
  one_row_missing missing f columns (ok (some b), w) h = absurd (ground (arith, h))
  one_row_missing missing f columns (ok none, w) h = refl
  one_row_missing missing f columns (err e, w) h = absurd (ground (arith, h))

  id_and_tenant_fixed :
      (a b : CryptographicKey) → has_id_and_tenant a.id a.tenant_id b ≡ true → b.id ≡ a.id
  unfolding has_id_and_tenant
  id_and_tenant_fixed a b h = (eq_iff b.id a.id).0 (ground (arith, h))

  id_fixed : (a b : CryptographicKey) → has_id a.id b ≡ true → b.id ≡ a.id
  unfolding has_id
  id_fixed a b h = (eq_iff b.id a.id).0 h

  own_clause :
      (a : CryptographicKey)
      → (has_id a.id a ≡ true) × (has_id_and_tenant a.id a.tenant_id a ≡ true)
  unfolding has_id has_id_and_tenant
  own_clause a = (eq_refl a.id, ground (arith, eq_refl a.id, eq_refl a.tenant_id))

  saved_error-none : (r : Option GoError) → saved_error r ≡ none → r ≡ none
  unfolding saved_error
  saved_error-none none h = refl
  saved_error-none (some e) h = absurd (ground (arith, h))

  deleted_error-none : (r : Reply (Reply ℕ)) → deleted_error r ≡ none → (n : ℕ) × (r ≡ ok (ok n))
  unfolding deleted_error
  deleted_error-none (err e) h = absurd (ground (arith, h))
  deleted_error-none (ok (err e)) h = absurd (ground (arith, h))
  deleted_error-none (ok (ok zero)) h = absurd (ground (arith, h))
  deleted_error-none (ok (ok (suc n))) h = (suc n, refl)

  id_of_both :
      (a b : CryptographicKey) → has_id_and_tenant a.id a.tenant_id b ≡ true → has_id a.id b ≡ true
  unfolding has_id has_id_and_tenant
  id_of_both a b h = ground (arith, h)

  -- No row is found that the DELETE before it took.
  none_left :
      (k : CryptographicKey) (w : W) (n : ℕ) (o : Option CryptographicKey)
      → (D.exec_delete (has_id k.id) w).0 ≡ ok (ok n)
      → (D.query_row (has_id_and_tenant k.id k.tenant_id) (D.exec_delete (has_id k.id) w).1).0
        ≡ ok o
      → (D.query_row (has_id_and_tenant k.id k.tenant_id) (D.exec_delete (has_id k.id) w).1).0
        ≡ ok none
  none_left k w n none hd e = e
  none_left k w n (some b) hd e =
      let (hb, pb) =
        L.found (has_id_and_tenant k.id k.tenant_id) b (D.exec_delete (has_id k.id) w).1 e in
      let gone_b = L.deleted (has_id k.id) b w n hd hb in
      absurd (ground (arith, gone_b, id_of_both k b pb))

  held_of_save :
      (k : CryptographicKey) (w : W)
      → (mysql_save D k w).0 ≡ none
      → L.Holds (inserted_row k) (mysql_save D k w).1
  unfolding mysql_save saved_error
  held_of_save k w h =
      L.inserted (inserted_row k) w (saved_error-none (D.exec_insert (inserted_row k) w).0 h)

  refused_again :
      (k k' : CryptographicKey) (w : W)
      → L.Holds (inserted_row k) w
      → k.id ≡ k'.id
      → (x : GoError) × ((mysql_save D k' w).0 ≡ some x)
  unfolding mysql_save saved_error inserted_row
  refused_again k k' w h same =
      let (e, he) = L.duplicate (inserted_row k) (inserted_row k') w h same in
      (wrapped "failed to get last insert id" e, ground (arith, he))

  gone :
      (k : CryptographicKey) (w : W) (o : Option CryptographicKey)
      → (mysql_delete D k.id w).0 ≡ none
      → let w' = (mysql_delete D k.id w).1 in
        (D.query_row (has_id_and_tenant k.id k.tenant_id) w').0 ≡ ok o
        → (mysql_find_by_id_and_tenant D k.id k.tenant_id w').0 ≡ err missing_key
  unfolding mysql_delete deleted_error mysql_find_by_id_and_tenant
  gone k w o h e =
      let (n, hd) = deleted_error-none (D.exec_delete (has_id k.id) w).0 h in
      one_row_missing missing_key find_error by_id_and_tenant_columns
        (D.query_row (has_id_and_tenant k.id k.tenant_id) (D.exec_delete (has_id k.id) w).1)
        (none_left k w n o hd e)

  -- After `Save` succeeded, where the table answers the lookups: `FindByIDAndTenant` gives the key
  -- without its owner, parent, certification level, alias, hardware flag, slot and expiration, and
  -- `FindByID` gives its id, its name and its public key, inactive and with no algorithm; `Save` of a
  -- key with this id is refused; and after a successful `Delete` of the id, at any later time, the key
  -- is not found.
  pub mysql_find-save :
      (k k' : CryptographicKey) (w later : W) (o₁ o₂ o₃ : Option CryptographicKey)
      → (mysql_save D k w).0 ≡ none
      → (D.query_row (has_id_and_tenant k.id k.tenant_id) (mysql_save D k w).1).0 ≡ ok o₁
      → (D.query_row (has_id k.id) (mysql_save D k w).1).0 ≡ ok o₂
      → k.id ≡ k'.id
      → (mysql_delete D k.id later).0 ≡ none
      → (D.query_row (has_id_and_tenant k.id k.tenant_id) (mysql_delete D k.id later).1).0 ≡ ok o₃
      → let w' = (mysql_save D k w).1 in
        ((mysql_find_by_id_and_tenant D k.id k.tenant_id w').0 ≡ ok (without_owner k))
        × ((mysql_find_by_id D k.id w').0 ≡ ok (inactive_remains k))
        × ((x : GoError) × ((mysql_save D k' w').0 ≡ some x))
        × ((mysql_find_by_id_and_tenant D k.id k.tenant_id (mysql_delete D k.id later).1).0
            ≡ err (plain "KEY_NOT_FOUND"))
  unfolding mysql_find_by_id mysql_find_by_id_and_tenant by_id_columns by_id_and_tenant_columns
      inserted_row code_text
  mysql_find-save k k' w later o₁ o₂ o₃ h e₁ e₂ same hd e₃ =
      let held = held_of_save k w h in
      let w' = (mysql_save D k w).1 in
      let row = inserted_row k in
      (
        one_row_found missing_key find_error by_id_and_tenant_columns
            (D.query_row (has_id_and_tenant k.id k.tenant_id) w') row
            (selected (has_id_and_tenant k.id k.tenant_id) row w' o₁ held (own_clause row).1
              (λ b. id_and_tenant_fixed row b) e₁),
        one_row_found (by_id_error "key not found" no_rows) (by_id_error "Error finding key")
            by_id_columns (D.query_row (has_id k.id) w') row
            (selected (has_id k.id) row w' o₂ held (own_clause row).0 (λ b. id_fixed row b) e₂),
        refused_again k k' w' held same,
        gone k later o₃ hd e₃,
      )
