-- ===== src/Secrets/K8s/Runs.antt =====
-- The theorems on the Kubernetes key manager at a concrete cluster.
use hsm_service.Prelude.{ℕ, ◌≡◌, refl, String, [], ◌∷◌, length}
use hsm_service.Domain.Errors.{plain}
use hsm_service.Domain.Entities.{Bytes}
use hsm_service.Exec.{ok, err}
use hsm_service.Aes.{EncryptAesGcm}
use hsm_service.Aes.Plain.{zeros, length-zeros, toy, toy-AeadLaws, some_key}
use hsm_service.Secrets.{
  local_wrap_key, local_unwrap_key, encrypt_with_key_id, decrypt_with_key_id, encrypt_with_key,
  decrypt_with_key,
}
use hsm_service.Secrets.K8s.{
  Secret, K8sConfig, K8sAesKeyManager, Cluster, entry_of, secret_key, k8s_get_key, new_k8s_manager,
}
use hsm_service.Secrets.K8s.Operations.{
  k8s_wrap_key, k8s_unwrap_key, k8s_encrypt_with_key_id, k8s_decrypt_with_key_id,
  k8s_encrypt_with_key, k8s_decrypt_with_key, k8s_rewrap_key,
}
use hsm_service.Secrets.K8s.Cache.{getting, listing, perform_all}
use hsm_service.Secrets.K8s.Lookups.{get_key_again}
use hsm_service.Secrets.K8s.Reads.{length-get_key, get_key-secret_key}
use hsm_service.Secrets.K8s.Keyring.{value, local_with, k8s-local}
use hsm_service.Secrets.K8s.Rewrap.{k8s_unwrap-rewrap}

abbrev config : K8sConfig
config = record {
  secret_name = "hsm-keys";
  secret_namespace = "";
  key_id = "master-aes-key-v2";
  master_key_key = "v2";
  old_master_key_key = "v1";
}

abbrev made : K8sAesKeyManager
made = record {
  config = record config { secret_namespace = "default" };
  key_cache = [];
  current_key_id = "master-aes-key-v2";
}

abbrev secret : Secret
secret = ("v2", some_key) ∷ ("v1", some_key) ∷ []

-- Nothing is Base64.
abbrev cluster : Cluster ℕ
cluster = record {
  get_secret = λ namespace name w. (ok secret, w);
  decode_string = λ s. err (plain "illegal base64 data");
}

get_key_again_example :
    let later =
      perform_all toy cluster
        (getting "old-master-key" ∷ listing ∷ [])
        (k8s_get_key cluster "master-aes-key-v2" (made, 5)).1 in
    k8s_get_key cluster "master-aes-key-v2" later ≡ (ok some_key, later)
unfolding k8s_get_key secret_key toy
get_key_again_example =
    get_key_again cluster toy "master-aes-key-v2" some_key (made, 5)
      (getting "old-master-key" ∷ listing ∷ []) refl

length-get_key_example : length some_key ≡ 32
unfolding k8s_get_key secret_key new_k8s_manager perform_all toy
length-get_key_example =
    length-get_key toy cluster config made 5 (getting "old-master-key" ∷ []) "master-aes-key-v2"
      some_key refl refl

get_key-secret_key_example :
    (k8s_get_key cluster "old-master-key"
      (perform_all toy cluster (getting "master-aes-key-v2" ∷ []) (made, 5))).0
    ≡ secret_key cluster made.config "old-master-key" (ok secret)
unfolding new_k8s_manager
get_key-secret_key_example =
    get_key-secret_key toy cluster config made (ok secret) refl (λ w. refl) 5
      (getting "master-aes-key-v2" ∷ []) "old-master-key"

k8s-local_example :
    let l = local_with some_key made in
    let id : String = "master-aes-key-v2" in
    let w = (k8s_get_key cluster id (made, 5)).1.1 in
    ((plain_key : Bytes)
      → (k8s_wrap_key toy cluster id plain_key (made, 5)).0
        ≡ (local_wrap_key toy l id plain_key w).0)
    × ((wrapped : Bytes)
        → value (k8s_unwrap_key toy cluster id wrapped (made, 5)).0
          ≡ value (local_unwrap_key toy l id wrapped))
    × ((text : Bytes)
        → (k8s_encrypt_with_key_id toy cluster id text (made, 5)).0
          ≡ (encrypt_with_key_id toy l id text w).0)
    × ((e : EncryptAesGcm)
        → (k8s_decrypt_with_key_id toy cluster id e (made, 5)).0 ≡ decrypt_with_key_id toy l id e)
    × ((data_key text : Bytes)
        → (k8s_encrypt_with_key toy cluster data_key text (made, 5)).0
          ≡ (encrypt_with_key toy l data_key text 5).0)
    × ((data_key : Bytes) (e : EncryptAesGcm)
        → value (k8s_decrypt_with_key toy cluster data_key e)
          ≡ value (decrypt_with_key toy l data_key e))
unfolding k8s_get_key secret_key toy
k8s-local_example = k8s-local toy cluster "master-aes-key-v2" some_key (made, 5) refl

k8s_unwrap-rewrap_example :
    (wrapped : Bytes) × (again : Bytes) × ((k8s_wrap_key toy cluster "old-master-key"
        (zeros 32)
        (perform_all toy cluster [] (made, 5))).0
      ≡ ok wrapped)
    × ((k8s_rewrap_key toy cluster "old-master-key" "master-aes-key-v2" wrapped
          (perform_all toy cluster (listing ∷ []) (made, 7))).0
        ≡ ok again)
    × ((k8s_unwrap_key toy cluster "master-aes-key-v2" again
          (perform_all toy cluster (getting "v1" ∷ []) (made, 9))).0
        ≡ ok (zeros 32))
unfolding new_k8s_manager secret_key entry_of toy
k8s_unwrap-rewrap_example =
    k8s_unwrap-rewrap toy toy-AeadLaws cluster config made secret refl (λ w. refl)
      (λ n w. (zeros n, refl)) "old-master-key" "master-aes-key-v2" some_key some_key (zeros 32) []
      (listing ∷ []) (getting "v1" ∷ []) 5 7 9 refl refl (length-zeros 32)
