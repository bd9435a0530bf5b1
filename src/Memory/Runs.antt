-- ===== src/Memory/Runs.antt =====
-- The theorems on the services at concrete calls on the in-memory ports.
use hsm_service.Prelude.{◌≡◌, refl, true, none, some, List, [], ◌∷◌, ◌↔◌}
use hsm_service.Prelude.Int.{ℤ}
use mathlib.Core.List.{Mem, filter}
use hsm_service.Domain.Entities.{HsmKey}
use hsm_service.Exec.{ok, signed, outcome_error, IsRefused, ◌>>=◌}
use hsm_service.Ports.{audit, hsm_calls, effects}
use hsm_service.Services.Helpers.{tenant_slot, get_tenant_with_audit, get_slot_with_audit}
use hsm_service.Memory.{Store, memory}
use hsm_service.Memory.Keeping.{memory-InsertsOnly}
use hsm_service.Services.Signing.{sign_hash, verify_hash_signature}
use hsm_service.Services.Signing.Uses.{
  Signs, Verifies, sign_hash-Signs, verify_hash_signature-Verifies,
}
use hsm_service.Services.Signing.Records.{RecordsOnce, sign_hash-RecordsOnce}
use hsm_service.Services.Keys.{create_key, rotate_key, delete_key}
use hsm_service.Services.Keys.Create.{Creates, create_key-Creates}
use hsm_service.Domain.Entities.{Tenant}
use hsm_service.Exec.{panicked}
use hsm_service.Ports.{Ports}
use hsm_service.Services.Audits.{audit_flags}
use hsm_service.Services.Keys.{validate_key_parameters}
use hsm_service.Services.Keys.Records.{
  RecordsCreation, create_key-RecordsCreation, create_key_panics,
}
use hsm_service.Services.Keys.Rotate.{Rotates, Deletes, rotate_key-Rotates, delete_key-Deletes}
use hsm_service.Services.Keys.InsertOnly.{rotate_key-IsRefused}
use hsm_service.Services.Crypto as Crypto
use hsm_service.Services.Crypto.{operation_failed}
use hsm_service.Services.Crypto.Lookup.{Uses}
use hsm_service.Services.Crypto.Uses.{sign-Uses}
use hsm_service.Services.HsmKeys.{list_hsm_keys}
use hsm_service.Services.HsmKeys.Isolation.{same_tenant, list_hsm_keys-Isolates}
use hsm_service.Memory.Data.{alice, object_of, start, intermediate}

sign_hash-Signs_example :
    let r = sign_hash memory "key-1" (4 ∷ []) alice start in
    Signs memory "key-1" (4 ∷ []) alice start r.0 (hsm_calls r.1.trace)
sign_hash-Signs_example = sign_hash-Signs memory "key-1" (4 ∷ []) alice start

verify_hash_signature-Verifies_example :
    let r = verify_hash_signature memory "key-1" (4 ∷ []) (9 ∷ 4 ∷ []) alice start in
    Verifies memory "key-1" (4 ∷ []) (9 ∷ 4 ∷ []) alice start r.0 (hsm_calls r.1.trace)
verify_hash_signature-Verifies_example =
    verify_hash_signature-Verifies memory "key-1" (4 ∷ []) (9 ∷ 4 ∷ []) alice start

sign_hash-RecordsOnce_example :
    let r = sign_hash memory "key-1" (4 ∷ []) alice start in
    RecordsOnce "SIGN" "SIGN" "key-1" alice (outcome_error r.0) [] r.1.trace
unfolding memory
sign_hash-RecordsOnce_example = sign_hash-RecordsOnce memory "key-1" (4 ∷ []) alice start refl refl

create_key-Creates_example :
    let r = create_key memory intermediate start in
    Creates intermediate r.0 (effects []) (effects r.1.trace)
create_key-Creates_example = create_key-Creates memory intermediate start

rotate_key-Rotates_example :
    let r = rotate_key memory "key-1" alice start in
    Rotates memory
      (memory.find_key "key-1" "acme" start.env).0
      alice
      r.0
      (effects [])
      (effects r.1.trace)
rotate_key-Rotates_example = rotate_key-Rotates memory "key-1" alice start

delete_key-Deletes_example :
    let r = delete_key memory "key-1" "acme" start in
    Deletes memory
      (memory.find_key "key-1" "acme" start.env).0
      "key-1"
      r.0
      (effects [])
      (effects r.1.trace)
delete_key-Deletes_example = delete_key-Deletes memory "key-1" "acme" start

rotate_key-IsRefused_example : IsRefused (rotate_key memory "key-1" alice start).0
rotate_key-IsRefused_example = rotate_key-IsRefused memory memory-InsertsOnly "key-1" alice start

list_hsm_keys-Isolates_example :
    (n : ℤ) × (e : Store) × (keys : List HsmKey) × ((memory.hsm_list n e).0 ≡ ok keys)
    × (object_of "box" "acme" ∷ [] ≡ filter (same_tenant "acme") keys)
    × ((key : HsmKey)
        → Mem key (object_of "box" "acme" ∷ []) ↔ (Mem key keys × (key.tenant_id ≡ "acme")))
unfolding list_hsm_keys memory ◌>>=◌ tenant_slot get_tenant_with_audit get_slot_with_audit audit
list_hsm_keys-Isolates_example =
    list_hsm_keys-Isolates memory "acme" start (object_of "box" "acme" ∷ []) refl

sign-Uses_example :
    (let r = Crypto.sign_data memory "box" (4 ∷ []) "acme" alice start in
      Uses memory "box" "acme" "SIGNING"
        (λ key n reply. signed key.key_handle (memory.sha256 (4 ∷ [])) n reply)
        (operation_failed "sign_data")
        start
        r.0
        (hsm_calls r.1.trace))
    × (let r = Crypto.sign_hash memory "box" (4 ∷ []) "acme" alice start in
        Uses memory "box" "acme" "SIGNING"
          (λ key n reply. signed key.key_handle (4 ∷ []) n reply)
          (operation_failed "sign_hash")
          start
          r.0
          (hsm_calls r.1.trace))
sign-Uses_example = sign-Uses memory "box" "acme" (4 ∷ []) alice start

create_key-RecordsCreation_example :
    let (o, w') = create_key memory intermediate start in
    RecordsCreation memory intermediate o [] w'.trace
unfolding memory
create_key-RecordsCreation_example = create_key-RecordsCreation memory intermediate start refl refl

abbrev new_tenant : Tenant
new_tenant = record { id = "acme"; name = "Acme"; status = "ACTIVE"; hsm_slot_id = none }

slotless : Ports Store
unfolding memory
slotless = record memory { find_tenant = λ id e. (ok (some new_tenant), e) }

create_key_panics_example :
    let (o, w') = create_key slotless intermediate start in
    (o ≡ panicked) × (audit_flags "CREATE_KEY" w'.trace ≡ true ∷ [])
unfolding slotless validate_key_parameters audit_flags
create_key_panics_example =
    create_key_panics slotless intermediate start new_tenant refl refl refl refl refl
