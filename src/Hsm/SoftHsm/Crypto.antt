-- ===== src/Hsm/SoftHsm/Crypto.antt =====
-- internal/infrastructure/hsm/client_crypto.go

pub mod Verdicts
use Prim.Native.String.{◌++◌ as cat}
use hsm_service.Prelude.{
  ℕ, String, Bool, true, false, Option, none, some, List, [], ◌∷◌, length, if◌then◌else◌,
}
use hsm_service.Prelude.Int.{pos}
use hsm_service.Domain.Errors.{GoError, wrapped}
use hsm_service.Domain.Entities.{Bytes, Detail}
use hsm_service.Exec.{
  Reply, ok, err, Outcome, returned, failed, panicked, Exec, pure, fail, rethrow, rescue, deferring,
  ◌>>=◌,
}
use hsm_service.Hsm.SoftHsm.{
  Session, Client, private_key, public_key, a_class, sha256_rsa_pkcs, rsa_pkcs, about_label,
  session_call, effect, not_closed, audited_method, find_by_label,
}

abbrev no_such_key : String → GoError → GoError
no_such_key label = about_label "failed to find key with label '" label "'"

abbrev verdict_of : Outcome Bool → Bool
verdict_of (returned b) = b
verdict_of (failed e) = false
verdict_of panicked = false

module _ {W : Type 0} (S : Session W) where
  sign_found : String → Bytes → Exec (Client W) Bytes
  unfolding ◌>>=◌ find_by_label not_closed session_call effect
  sign_found label hash = do
    handle ← rethrow (no_such_key label) (find_by_label S private_key label)
    _ ← not_closed
    _ ←
        rethrow (about_label "key with label '" label "' not accessible")
          (session_call (S.get_attribute_value handle (a_class ∷ [])))
    _ ←
        rethrow (wrapped "failed to initialize signing operation")
          (effect (S.sign_init sha256_rsa_pkcs handle))
    rethrow (wrapped "failed to sign") (session_call (S.sign hash))

  -- What `Verify` answered: an invalid signature is no error.
  verified_as : Exec (Client W) (Unit {0}) → Exec (Client W) Bool
  unfolding ◌>>=◌
  verified_as m =
      rescue (do _ ← m; pure true)
        λ e.
          if S.is_signature_invalid e
          then pure false
          else fail (wrapped "failed to verify signature" e)

  verify_found : String → Bytes → Bytes → Exec (Client W) Bool
  unfolding ◌>>=◌ find_by_label not_closed session_call effect verified_as
  verify_found label hash signature = do
    handle ← rethrow (no_such_key label) (find_by_label S public_key label)
    _ ← not_closed
    _ ←
        rethrow (about_label "public key with label '" label "' not accessible")
          (session_call (S.get_attribute_value handle (a_class ∷ [])))
    _ ←
        rethrow (wrapped "failed to initialize verification operation")
          (effect (S.verify_init sha256_rsa_pkcs handle))
    verified_as (effect (S.verify hash signature))

  unfoldable pub softhsm_encrypt : String → Bytes → Exec (Client W) Bytes
  unfolding ◌>>=◌ find_by_label not_closed session_call effect
  softhsm_encrypt label plaintext = do
    handle ← rethrow (no_such_key label) (find_by_label S public_key label)
    _ ← not_closed
    _ ←
        rethrow (wrapped "failed to initialize encryption")
          (effect (S.encrypt_init rsa_pkcs handle))
    rethrow (wrapped "failed to encrypt") (session_call (S.encrypt plaintext))

  unfoldable pub softhsm_decrypt : String → Bytes → Exec (Client W) Bytes
  unfolding ◌>>=◌ find_by_label not_closed session_call effect
  softhsm_decrypt label ciphertext = do
    handle ← rethrow (no_such_key label) (find_by_label S private_key label)
    _ ← not_closed
    _ ←
        rethrow (wrapped "failed to initialize decryption")
          (effect (S.decrypt_init rsa_pkcs handle))
    rethrow (wrapped "failed to decrypt") (session_call (S.decrypt ciphertext))

  module _ (has_dispatcher : Bool) where
    -- `SignHash`: the identity only goes into the context.
    unfoldable pub softhsm_sign_hash : String → Bytes → Exec (Client W) Bytes
    unfolding audited_method sign_found
    softhsm_sign_hash label hash =
        audited_method has_dispatcher "SIGN_HASH"
          (λ o.
            ("handle", Detail.text label) ∷ ("hash_length", Detail.number (pos (length hash))) ∷ [])
          (sign_found label hash)

    unfoldable pub softhsm_verify_signature : String → Bytes → Bytes → Exec (Client W) Bool
    unfolding audited_method verify_found
    softhsm_verify_signature label hash signature =
        audited_method has_dispatcher "VERIFY_SIGNATURE"
          (λ o.
            ("handle", Detail.text label)
            ∷ ("hash_length", Detail.number (pos (length hash)))
            ∷ ("signature_length", Detail.number (pos (length signature)))
            ∷ ("is_valid", Detail.flag (verdict_of o))
            ∷ [])
          (verify_found label hash signature)
