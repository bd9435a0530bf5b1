-- ===== src/Http/Statuses.antt =====
-- base_handler.go on the errors of the services.
use hsm_service.Prelude.{
  ℕ, String, ◌≡◌, not, Option, none, some, if◌then◌else◌, arith, Bool-cases, inl, inr,
}
use hsm_service.Domain.Errors.{
  GoError, new_domain_error, with_detail, key_not_found, key_inactive, invalid_key_usage, as_domain,
}
use hsm_service.Domain.Values.{IdentityContext, usage_can_sign}
use hsm_service.Domain.Entities.{Bytes, CryptographicKey}
use hsm_service.Exec.{Reply, ok, err, World, failed, Reply-cases, ◌>>=◌}
use hsm_service.Ports.{Ports}
use hsm_service.Services.Signing.{sign_hash, validate_key_and_get_slot}
use hsm_service.Services.Keys.{CreationContext, validate_key_parameters, create_key, checked_slot}
use hsm_service.Http.{handle_error, map_domain_error_to_http}

-- The status that is due to a caller who may not use the key that was looked up.
unfoldable pub refusal_status : Reply CryptographicKey → Option ℕ
refusal_status (err e) = some 404
refusal_status (ok key) =
    if not key.is_active
    then some 409
    else if not (usage_can_sign key.purpose)
    then some 400
    else none

module _ {W : Type 0} (P : Ports W) where
  -- A `SignHash` with a key that is not found, not active or not for signing is answered with 404,
  -- 409 or 400, in this order of the checks.
  pub sign_hash-status :
      (key_id : String) (hash : Bytes) (identity : IdentityContext) (w : World W) (n : ℕ)
      → refusal_status (P.find_key key_id identity.tenant_id w.env).0 ≡ some n
      → (e : GoError) × ((sign_hash P key_id hash identity w).0 ≡ failed e)
        × ((handle_error e).status ≡ n)
  unfolding sign_hash validate_key_and_get_slot ◌>>=◌ refusal_status usage_can_sign handle_error
      new_domain_error with_detail map_domain_error_to_http as_domain
  sign_hash-status key_id hash identity w n h =
      let found = (P.find_key key_id identity.tenant_id w.env).0 in
      elim (Reply-cases found) [
        | inr (x, f) ↦ (
          with_detail "tenant_id" identity.tenant_id
              (with_detail "key_id" key_id (new_domain_error key_not_found "key not found")),
          ground (arith, f),
          ground (arith, f, h),
        )
        | inl (key, f) ↦ elim (Bool-cases key.is_active) [
          | inr a ↦ (
            with_detail "key_id" key_id (new_domain_error key_inactive "key is not active"),
            ground (arith, f, a),
            ground (arith, f, a, h),
          )
          | inl a ↦ (
            with_detail "usage" key.purpose (
                with_detail "key_id" key_id
                  (new_domain_error invalid_key_usage "key usage does not allow this operation")),
            ground (arith, f, a, h),
            ground (arith, f, a, h),
          )
        ]
      ]

  -- A `CreateKey` with an unknown algorithm or usage is answered with 500: its error is not a domain
  -- error, so that the status 400 of INVALID_KEY_USAGE is not used.
  pub create_key-status :
      (c : CreationContext) (w : World W) (x : GoError)
      → validate_key_parameters c.algorithm c.usage ≡ some x
      → (e : GoError) × ((create_key P c w).0 ≡ failed e) × ((handle_error e).status ≡ 500)
  unfolding create_key checked_slot validate_key_parameters ◌>>=◌ handle_error as_domain
  create_key-status c w x h = (x, ground (arith, h), ground (arith, h))
