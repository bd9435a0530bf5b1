-- ===== src/Secrets/K8s/Keyring.antt =====
-- k8s_manager.go beside local_manager.go: the operations under a key that `GetKey`
-- gives.
use hsm_service.Prelude.{
  not, ◌≡◌, refl, sym, ◌∙◌, ap, String, Bool, true, false, Option, none, some, length,
  if◌then◌else◌, ltb, ◌==◌, arith,
}
use hsm_service.Domain.Errors.{GoError}
use hsm_service.Domain.Entities.{Bytes}
use hsm_service.Exec.{Reply, ok, err}
use hsm_service.Aes.{Aead, EncryptAesGcm, with_error, unwrap_key, decrypt_aes_gcm}
use hsm_service.Secrets.{
  LocalAesKeyManager, get_key, local_wrap_key, local_unwrap_key, wrap_under, encrypt_under,
  encrypt_with_key_id, decrypt_with_key_id, encrypt_with_key, decrypt_with_key,
}
use hsm_service.Secrets.K8s.{K8sConfig, K8sAesKeyManager, Cluster, k8s_get_key}
use hsm_service.Secrets.K8s.Operations.{
  beside, with_key, wrapped_with, k8s_wrap_key, unwrapped_with, k8s_unwrap_key,
  k8s_encrypt_with_key_id, k8s_decrypt_with_key_id, k8s_encrypt_with_key, k8s_decrypt_with_key,
}

-- The value of a reply, without its error.
unfoldable pub value : {A : Type 0} → Reply A → Option A
value (ok a) = some a
value (err e) = none

value-with_error :
    {A : Type 0} (f : GoError → GoError) (r : Reply A) → value (with_error f r) ≡ value r
unfolding value
value-with_error f (ok a) = refl
value-with_error f (err e) = refl

if_value :
    {A : Type 0} (b : Bool) (x y x' y' : Reply A)
    → value x ≡ value x'
    → value y ≡ value y'
    → value (if b then x else y) ≡ value (if b then x' else y')
if_value true x y x' y' hx hy = hx
if_value false x y x' y' hx hy = hy

pub with_key_ok :
    {W A : Type 0} (f : K8sConfig → GoError → GoError)
    (g : Bytes → K8sAesKeyManager × W → Reply A × (K8sAesKeyManager × W))
    (r : Reply Bytes × (K8sAesKeyManager × W)) (key : Bytes)
    → r.0 ≡ ok key
    → with_key f g r ≡ g key r.1
unfolding with_key
with_key_ok f g (ok v, s) key h = ap (λ b. g b s) (ground (arith, h))
with_key_ok f g (err x, s) key h = absurd (ground (arith, h))

unfoldable pub local_with : Bytes → K8sAesKeyManager → LocalAesKeyManager
local_with key k = record { master_key = key; key_id = k.current_key_id }

module _ {W : Type 0} (C : Aead W) (K : Cluster W) where
  -- Where `GetKey` gives a key for an id, `WrapKey`, `EncryptWithKeyID` and `DecryptWithKeyID` of the
  -- Kubernetes manager reply under this id as those of a local manager with that key, and `UnwrapKey`
  -- gives the same values; so do `EncryptWithKey`, with the same errors, and `DecryptWithKey`, on
  -- any key.
  pub k8s-local :
      (key_id : String) (key : Bytes) (s : K8sAesKeyManager × W)
      → (k8s_get_key K key_id s).0 ≡ ok key
      → let s' = (k8s_get_key K key_id s).1 in
        let l = local_with key s.0 in
        ((plain_key : Bytes)
          → (k8s_wrap_key C K key_id plain_key s).0 ≡ (local_wrap_key C l key_id plain_key s'.1).0)
        × ((wrapped : Bytes)
            → value (k8s_unwrap_key C K key_id wrapped s).0
              ≡ value (local_unwrap_key C l key_id wrapped))
        × ((text : Bytes)
            → (k8s_encrypt_with_key_id C K key_id text s).0
              ≡ (encrypt_with_key_id C l key_id text s'.1).0)
        × ((e : EncryptAesGcm)
            → (k8s_decrypt_with_key_id C K key_id e s).0 ≡ decrypt_with_key_id C l key_id e)
        × ((data_key text : Bytes)
            → (k8s_encrypt_with_key C K data_key text s).0
              ≡ (encrypt_with_key C l data_key text s.1).0)
        × ((data_key : Bytes) (e : EncryptAesGcm)
            → value (k8s_decrypt_with_key C K data_key e) ≡ value (decrypt_with_key C l data_key e))
  unfolding local_with k8s_wrap_key wrapped_with k8s_unwrap_key unwrapped_with
      k8s_encrypt_with_key_id k8s_decrypt_with_key_id k8s_encrypt_with_key k8s_decrypt_with_key
      local_wrap_key wrap_under local_unwrap_key encrypt_with_key_id encrypt_under
      decrypt_with_key_id encrypt_with_key decrypt_with_key get_key beside
  k8s-local key_id key s h =
      let r = k8s_get_key K key_id s in
      (
        λ plain_key.
            ap (λ p. p.0) (with_key_ok _ (wrapped_with C K plain_key) r key h) ∙ ground arith,
        λ wrapped.
            ap (λ p. value p.0)
              (with_key_ok _ (λ master s'. (unwrapped_with C K wrapped master, s')) r key h)
            ∙ if_value (ltb (length wrapped) 28) _ _ _ _ refl
                (value-with_error _ (unwrap_key C key wrapped)),
        λ text. ap (λ p. p.0) (with_key_ok _ _ r key h),
        λ e.
            ground
              (arith, with_key_ok (λ config x. x) (λ k s'. (decrypt_aes_gcm C k e, s')) r key h),
        λ data_key text. ground arith,
        λ data_key e.
            if_value (not (length data_key == 32)) _ _ _ _ refl
              (sym (value-with_error _ (decrypt_aes_gcm C data_key e))),
      )
