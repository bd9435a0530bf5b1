-- ===== src/Hsm/SoftHsm/Inventory.antt =====
-- internal/infrastructure/hsm/client_inventory.go

pub mod Searches
pub mod Listing
use Prim.Native.String.{◌++◌ as cat}
use hsm_service.Prelude.{
  ℕ, String, Bool, true, false, Option, none, some, List, [], ◌∷◌, ◌++◌, length, ◌==◌,
  if◌then◌else◌,
}
use hsm_service.Prelude.Substrings.{contains}
use hsm_service.Domain.Errors.{GoError, plain, wrapped}
use hsm_service.Domain.Values.{both}
use hsm_service.Domain.Entities.{Bytes, HsmKey}
use hsm_service.Exec.{
  Reply, ok, err, Outcome, returned, failed, panicked, Exec, pure, fail, lift, rethrow, rescue,
  deferring, ◌>>=◌,
}
use hsm_service.Hsm.SoftHsm.{
  Session, Client, Attributes, AttributeType, private_key, public_key, class_is, a_label,
  a_key_type, a_id, a_modulus, a_ec_point, about_label, session_call, effect, afterwards,
  not_closed, audited_method, find_by_label,
}

abbrev pub object_batch_size : ℕ
object_batch_size = 100

-- The loop over the attributes of a public key.
unfoldable pub first_value : Attributes → Reply Bytes
first_value [] = err (plain "public key not found")
first_value ((t, []) ∷ rest) = first_value rest
first_value ((t, b ∷ bytes) ∷ rest) = ok (b ∷ bytes)

unfoldable pub map_key_type : ℕ → String
map_key_type b = if b == 0 then "RSA" else if b == 3 then "ECDSA" else "UNKNOWN"

abbrev blank_key : HsmKey
blank_key = record {
  label = "";
  type = "";
  size = 0;
  tenant_id = "";
  public_key = [];
  key_handle = "";
  is_active = true;
  usage = both;
}

-- The loop over the attributes of a key: the type's first byte is read without a test.
unfoldable pub with_attributes : (Bytes → String) → HsmKey → Attributes → Outcome HsmKey
unfolding map_key_type
with_attributes text_of key [] = returned key
with_attributes text_of key ((a_label, value) ∷ rest) =
    with_attributes text_of (record key { label = text_of value; key_handle = text_of value }) rest
with_attributes text_of key ((a_key_type, []) ∷ rest) = panicked
with_attributes text_of key ((a_key_type, b ∷ bytes) ∷ rest) =
    with_attributes text_of (record key { type = map_key_type b }) rest
with_attributes text_of key ((a_id, []) ∷ rest) = with_attributes text_of key rest
with_attributes text_of key ((a_id, b ∷ bytes) ∷ rest) =
    with_attributes text_of (record key { tenant_id = text_of (b ∷ bytes) }) rest
with_attributes text_of key ((_, value) ∷ rest) = with_attributes text_of key rest

-- The loop of `FindKeysByLabel`.
unfoldable pub keys_with_label : String → List HsmKey → List HsmKey
keys_with_label pattern' [] = []
keys_with_label pattern' (key ∷ rest) =
    if contains key.label pattern'
    then key ∷ keys_with_label pattern' rest
    else keys_with_label pattern' rest

module _ {W : Type 0} (S : Session W) (has_dispatcher : Bool) where
  public_found : String → Exec (Client W) Bytes
  unfolding ◌>>=◌ find_by_label session_call first_value
  public_found label = do
    handle ←
        rethrow (about_label "failed to find public key with label '" label "'")
          (find_by_label S public_key label)
    attrs ←
        rethrow (wrapped "failed to get public key attributes")
          (session_call (S.get_attribute_value handle (a_modulus ∷ a_ec_point ∷ [])))
    lift (first_value attrs)

  -- `GetPublicKey` does not ask whether the client is closed.
  unfoldable pub softhsm_get_public_key : String → Exec (Client W) Bytes
  unfolding audited_method public_found
  softhsm_get_public_key label =
      audited_method has_dispatcher "GET_PUBLIC_KEY" (λ o. []) (public_found label)

  delete_found : String → Exec (Client W) (Unit {0})
  unfolding ◌>>=◌ find_by_label not_closed effect
  delete_found label = do
    handle ← rescue (find_by_label S private_key label) λ _.
        rethrow (about_label "failed to find key with label '" label "'")
          (find_by_label S public_key label)
    _ ← not_closed
    effect (S.destroy_object handle)

  unfoldable pub softhsm_delete_key : String → Exec (Client W) (Unit {0})
  unfolding audited_method delete_found
  softhsm_delete_key label =
      audited_method has_dispatcher "DELETE_KEY" (λ o. []) (delete_found label)

  -- The public key is kept where it is found_object, and else left out.
  with_public_key : HsmKey → Exec (Client W) HsmKey
  unfolding ◌>>=◌ softhsm_get_public_key
  with_public_key key =
      rescue
        (do found ← softhsm_get_public_key key.key_handle; pure (record key { public_key = found }))
        λ _. pure key

  unfoldable pub get_key_info : ℕ → Exec (Client W) HsmKey
  unfolding ◌>>=◌ session_call with_attributes with_public_key
  get_key_info handle = do
    attrs ←
        rethrow (wrapped "failed to get key attributes")
          (session_call (S.get_attribute_value handle (a_label ∷ a_key_type ∷ a_id ∷ [])))
    key ← λ w. (with_attributes S.text_of blank_key attrs, w)
    with_public_key key

  -- A key whose information fails is left out.
  one_info : ℕ → Exec (Client W) (List HsmKey)
  unfolding ◌>>=◌ get_key_info
  one_info handle = rescue (do key ← get_key_info handle; pure (key ∷ [])) λ _. pure []

  key_infos : List ℕ → Exec (Client W) (List HsmKey)
  unfolding ◌>>=◌ one_info
  key_infos [] = pure []
  key_infos (handle ∷ handles) = do
    keys ← one_info handle
    rest ← key_infos handles
    pure (keys ++ rest)

  keys_listed : Exec (Client W) (List HsmKey)
  unfolding ◌>>=◌ session_call key_infos
  keys_listed = do
    handles ←
        rethrow (wrapped "failed to find keys") (session_call (S.find_objects object_batch_size))
    key_infos handles

  list_search : Exec (Client W) (List HsmKey)
  unfolding ◌>>=◌ effect afterwards keys_listed
  list_search = do
    _ ←
        rethrow (wrapped "failed to initialize key search")
          (effect (S.find_objects_init (class_is private_key ∷ [])))
    deferring keys_listed (λ o. afterwards S.find_objects_final)

  -- `ListKeys` does not ask whether the client is closed.
  unfoldable pub softhsm_list_keys : Exec (Client W) (List HsmKey)
  unfolding audited_method list_search
  softhsm_list_keys = audited_method has_dispatcher "LIST_KEYS" (λ o. []) list_search

  unfoldable pub softhsm_find_keys_by_label : String → Exec (Client W) (List HsmKey)
  unfolding ◌>>=◌ softhsm_list_keys keys_with_label
  softhsm_find_keys_by_label label_pattern = do
    keys ← softhsm_list_keys
    pure (keys_with_label label_pattern keys)
