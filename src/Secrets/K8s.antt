-- ===== src/Secrets/K8s.antt =====
-- internal/infrastructure/secrets/k8s_manager.go. The Kubernetes client and encoding/base64 are
-- parameters; a secret is the list of its fields. The locks make each access of the cache one step.
pub mod Operations
pub mod Cache
pub mod Lookups
pub mod Reads
pub mod Keyring
pub mod Rewrap
mod Runs
use hsm_service.Prelude.{
  ℕ, String, Bool, true, false, not, ◌&&◌, Option, none, some, List, [], ◌∷◌, map, length, ltb,
  ◌==◌, str_eq, if◌then◌else◌,
}
use hsm_service.Prelude.Decimal.{decimal}
use hsm_service.Domain.Errors.{
  GoError, ErrorCode, wrapped, predefined, with_detail, error_text, invalid_aes_key_size,
  wrapping_key_length, fail_uunwrap_key, fail_wrap_key, fail_create_aes_key, key_idmismatch,
  k8s_secret_not_found, k8s_key_not_found, invalid_base64,
}
use hsm_service.Domain.Entities.{Bytes}
use hsm_service.Exec.{Reply, ok, err}
use hsm_service.Ports.AesKeys.{AesKeyManager}
use hsm_service.Aes.{
  Aead, EncryptAesGcm, and_then, with_error, generate_aes256_key, encrypt_aes_gcm, decrypt_aes_gcm,
  wrap_key, unwrap_key,
}
use hsm_service.Secrets.{size_error, tagged, encrypt_error}

abbrev pub Secret : Type 0
Secret = List (String × Bytes)

pub record K8sConfig : Type 0 where
  pub secret_name : String
  pub secret_namespace : String
  pub key_id : String
  pub master_key_key : String
  pub old_master_key_key : String

pub record K8sAesKeyManager : Type 0 where
  pub config : K8sConfig
  pub key_cache : List (String × Bytes)
  pub current_key_id : String

-- `Secrets(namespace).Get(name)` and `base64.StdEncoding.DecodeString`.
pub record Cluster (W : Type 0) : Type 0 where
  pub get_secret : String → String → W → Reply Secret × W
  pub decode_string : Bytes → Reply Bytes

-- `m[key]` on a map from texts.
unfoldable pub entry_of : String → List (String × Bytes) → Option Bytes
entry_of key [] = none
entry_of key ((k, v) ∷ rest) = if str_eq k key then some v else entry_of key rest

defaulted : String → String → String
defaulted s d = if str_eq s "" then d else s

-- `NewK8SAESKeyManager`, given what `createK8sClient` returned.
unfoldable pub new_k8s_manager : Option GoError → K8sConfig → Reply K8sAesKeyManager
unfolding defaulted
new_k8s_manager (some e) config = err (wrapped "failed to create Kubernetes client" e)
new_k8s_manager none config = ok record {
  config = record config {
    secret_namespace = defaulted config.secret_namespace "default";
    master_key_key = defaulted config.master_key_key "master-aes-key-v1";
  };
  key_cache = [];
  current_key_id = config.key_id;
}

unfoldable pub secret_key_field : K8sConfig → String → String
secret_key_field config key_id =
    if str_eq key_id config.key_id
    then config.master_key_key
    else if str_eq key_id "old-master-key" && not (str_eq config.old_master_key_key "")
    then config.old_master_key_key
    else key_id

-- A predefined error with the secret's name and namespace and one more detail.
abbrev secret_error : ErrorCode → K8sConfig → String → String → GoError
secret_error code config name value = with_detail name value (
    with_detail "namespace" config.secret_namespace
      (with_detail "secretName" config.secret_name (predefined code)))

field_of : K8sConfig → String → Option Bytes → Reply Bytes
field_of config field none = err (secret_error k8s_key_not_found config "field" field)
field_of config field (some value) = ok value

unfoldable pub sized : Bytes → Reply Bytes
sized key =
    if not (length key == 32)
    then err (size_error (predefined invalid_aes_key_size) "expected" 32 (length key))
    else ok key

abbrev no_failure : Reply Bytes → Bool
no_failure (ok b) = true
no_failure (err e) = false

-- The detail that `WrapKey`, `UnwrapKey` and `RewrapKey` keep of a failed `GetKey`.
abbrev pub not_found : K8sConfig → GoError → GoError
not_found config x = secret_error k8s_secret_not_found config "error" (error_text x)

abbrev pub with_original_error : ErrorCode → GoError → GoError
with_original_error code x = with_detail "original_error" (error_text x) (predefined code)

module _ {W : Type 0} (K : Cluster W) where
  unfoldable pub is_base64 : Bytes → Bool
  is_base64 s = no_failure (K.decode_string s)

  unfoldable pub decoded : Bytes → Reply Bytes
  unfolding is_base64
  decoded value =
      if is_base64 value
      then with_error (λ x. with_detail "error" (error_text x) (predefined invalid_base64))
          (K.decode_string value)
      else ok value

  -- What `GetKey` makes of the answer of the cluster.
  unfoldable pub secret_key : K8sConfig → String → Reply Secret → Reply Bytes
  unfolding field_of secret_key_field decoded sized
  secret_key config key_id (err x) = err (not_found config x)
  secret_key config key_id (ok fields) =
      let field = secret_key_field config key_id in
      and_then (field_of config field (entry_of field fields)) λ d. and_then (decoded d) sized

  stored : String → Reply Bytes → K8sAesKeyManager × W → Reply Bytes × (K8sAesKeyManager × W)
  stored key_id (err x) (k, w) = (err x, (k, w))
  stored key_id (ok key) (k, w) =
      (ok key, (record k { key_cache = (key_id, key) ∷ k.key_cache }, w))

  looked_up : String → Option Bytes → K8sAesKeyManager × W → Reply Bytes × (K8sAesKeyManager × W)
  unfolding stored
  looked_up key_id (some key) (k, w) = (ok key, (k, w))
  looked_up key_id none (k, w) =
      let (answer, w') = K.get_secret k.config.secret_namespace k.config.secret_name w in
      stored key_id (secret_key k.config key_id answer) (k, w')

  unfoldable pub k8s_get_key : String → K8sAesKeyManager × W → Reply Bytes × (K8sAesKeyManager × W)
  unfolding looked_up entry_of
  k8s_get_key key_id (k, w) = looked_up key_id (entry_of key_id k.key_cache) (k, w)

  unfoldable pub k8s_list_key_versions :
      K8sAesKeyManager × W → Reply (List String) × (K8sAesKeyManager × W)
  k8s_list_key_versions (k, w) =
      let (answer, w') = K.get_secret k.config.secret_namespace k.config.secret_name w in
      (and_then answer (λ fields. ok (map (λ field. field.0) fields)), (k, w'))
