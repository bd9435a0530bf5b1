-- ===== src/Secrets/K8s/Cache.antt =====
-- k8s_manager.go: what the cache of keys keeps, over any sequence of calls.
use hsm_service.Prelude.{String, Bool, true, false, List, [], ◌∷◌, if◌then◌else◌}
use hsm_service.Domain.Errors.{GoError}
use hsm_service.Domain.Entities.{Bytes}
use hsm_service.Exec.{Reply, ok, err}
use hsm_service.Aes.{Aead, EncryptAesGcm}
use hsm_service.Secrets.K8s.{
  K8sConfig, K8sAesKeyManager, Cluster, k8s_get_key, k8s_list_key_versions,
}
use hsm_service.Secrets.K8s.Operations.{
  beside, with_key, k8s_generate_data_key, wrapped_with, k8s_wrap_key, k8s_unwrap_key,
  k8s_encrypt_with_key_id, k8s_decrypt_with_key_id, k8s_encrypt_with_key, rewrapped_with,
  rewrapped_from, k8s_rewrap_key,
}

-- The calls that can change a manager.
pub data Call : Type 0 where
  getting : String → Call
  generating : Call
  wrapping : String → Bytes → Call
  unwrapping : String → Bytes → Call
  rewrapping : String → String → Bytes → Call
  encrypting : String → Bytes → Call
  decrypting : String → EncryptAesGcm → Call
  encrypting_with : Bytes → Bytes → Call
  listing : Call

module _ {W A : Type 0} (I : K8sAesKeyManager → Type 0) where
  beside_keeps : (call : W → Reply A × W) (s : K8sAesKeyManager × W) → I s.0 → I (beside call s).1.0
  unfolding beside
  beside_keeps call s h = h

  with_key_keeps :
      (f : K8sConfig → GoError → GoError)
      (g : Bytes → K8sAesKeyManager × W → Reply A × (K8sAesKeyManager × W))
      → ((key : Bytes) (s : K8sAesKeyManager × W) → I s.0 → I (g key s).1.0)
      → (r : Reply Bytes × (K8sAesKeyManager × W)) → I r.1.0
      → I (with_key f g r).1.0
  unfolding with_key
  with_key_keeps f g k (err x, s) h = h
  with_key_keeps f g k (ok key, s) h = k key s h

  if_keeps :
      (b : Bool) (x y : Reply A × (K8sAesKeyManager × W))
      → I x.1.0
      → I y.1.0
      → I (if b then x else y).1.0
  if_keeps true x y hx hy = hx
  if_keeps false x y hx hy = hy

module _ {W : Type 0} (C : Aead W) (K : Cluster W) where
  unfoldable pub perform : Call → K8sAesKeyManager × W → K8sAesKeyManager × W
  perform (getting key_id) s = (k8s_get_key K key_id s).1
  perform generating s = (k8s_generate_data_key C K s).1
  perform (wrapping key_id plain_key) s = (k8s_wrap_key C K key_id plain_key s).1
  perform (unwrapping key_id wrapped) s = (k8s_unwrap_key C K key_id wrapped s).1
  perform (rewrapping old new wrapped) s = (k8s_rewrap_key C K old new wrapped s).1
  perform (encrypting key_id text) s = (k8s_encrypt_with_key_id C K key_id text s).1
  perform (decrypting key_id e) s = (k8s_decrypt_with_key_id C K key_id e s).1
  perform (encrypting_with key text) s = (k8s_encrypt_with_key C K key text s).1
  perform listing s = (k8s_list_key_versions K s).1

  unfoldable pub perform_all : List Call → K8sAesKeyManager × W → K8sAesKeyManager × W
  unfolding perform
  perform_all [] s = s
  perform_all (c ∷ cs) s = perform_all cs (perform c s)

  module _ (I : K8sAesKeyManager → Type 0)
      (get : (key_id : String) (s : K8sAesKeyManager × W)
        → I s.0
        → I (k8s_get_key K key_id s).1.0) where
    rewrapped_keeps :
        (new : String) (r : Reply Bytes) (s : K8sAesKeyManager × W)
        → I s.0
        → I (rewrapped_from C K new r s).1.0
    unfolding rewrapped_from rewrapped_with beside
    rewrapped_keeps new (err x) s h = h
    rewrapped_keeps new (ok plain_key) s h =
        with_key_keeps I _ (rewrapped_with C K plain_key) (λ key s' h'. h') (k8s_get_key K new s)
          (get new s h)

    perform_keeps : (c : Call) (s : K8sAesKeyManager × W) → I s.0 → I (perform c s).0
    unfolding perform k8s_wrap_key wrapped_with k8s_unwrap_key k8s_rewrap_key
        k8s_encrypt_with_key_id k8s_decrypt_with_key_id k8s_encrypt_with_key k8s_generate_data_key
        k8s_list_key_versions
    perform_keeps (getting key_id) s h = get key_id s h
    perform_keeps generating s h = h
    perform_keeps (wrapping key_id plain_key) s h =
        with_key_keeps I _ (wrapped_with C K plain_key) (λ master s' h'. if_keeps I _ _ _ h' h')
          (k8s_get_key K key_id s) (get key_id s h)
    perform_keeps (unwrapping key_id wrapped) s h =
        with_key_keeps I _ _ (λ master s' h'. h') (k8s_get_key K key_id s) (get key_id s h)
    perform_keeps (rewrapping old new wrapped) s h =
        with_key_keeps I _ _ (λ key s' h'. rewrapped_keeps new _ s' h') (k8s_get_key K old s)
          (get old s h)
    perform_keeps (encrypting key_id text) s h =
        with_key_keeps I _ _ (λ key s' h'. h') (k8s_get_key K key_id s) (get key_id s h)
    perform_keeps (decrypting key_id e) s h =
        if_keeps I _ _ _ h
          (with_key_keeps I _ _ (λ key s' h'. h') (k8s_get_key K key_id s) (get key_id s h))
    perform_keeps (encrypting_with key text) (k, w) h = if_keeps I _ _ _ h h
    perform_keeps listing s h = h

    pub perform_all_keeps :
        (cs : List Call) (s : K8sAesKeyManager × W) → I s.0 → I (perform_all cs s).0
    unfolding perform_all
    perform_all_keeps [] s h = h
    perform_all_keeps (c ∷ cs) s h = perform_all_keeps cs (perform c s) (perform_keeps c s h)
