-- ===== src/Hsm/SoftHsm/Runs.antt =====
-- The theorems on the client at a concrete token, which holds one key pair and whose state tells
-- whether a search is active.
use hsm_service.Prelude.{
  ℕ, ◌≡◌, refl, String, Bool, true, false, Option, none, some, [], ◌∷◌, take, length, ◌≤◌,
  length-take, arith,
}
use hsm_service.Prelude.Int.{ℤ, pos}
use hsm_service.Domain.Errors.{GoError, plain}
use hsm_service.Domain.Entities.{Bytes, HsmKey}
use hsm_service.Domain.Values.{both}
use hsm_service.Exec.{ok, err, World}
use hsm_service.Hsm.SoftHsm.{
  Session, Client, a_label, a_key_type, softhsm_close, softhsm_health_check,
}
use hsm_service.Hsm.SoftHsm.Closed.{IsFailed, close-IsFailed}
use hsm_service.Hsm.SoftHsm.Crypto.{
  softhsm_sign_hash, softhsm_verify_signature, softhsm_encrypt, softhsm_decrypt,
}
use hsm_service.Hsm.SoftHsm.Crypto.Verdicts.{Verdict, verify_signature-Verdict}
use hsm_service.Hsm.SoftHsm.Export.{Encodings}
use hsm_service.Hsm.SoftHsm.Keygen.{softhsm_generate_key_pair}
use hsm_service.Hsm.SoftHsm.Keygen.Pairs.{Generates, generate_key_pair-Generates}
use hsm_service.Hsm.SoftHsm.Inventory.{softhsm_delete_key, softhsm_list_keys, object_batch_size}
use hsm_service.Hsm.SoftHsm.Inventory.Searches.{SearchLaws, Unpublished}
use hsm_service.Hsm.SoftHsm.Inventory.Listing.{list_keys-Unpublished}

abbrev active : GoError
active = plain "CKR_OPERATION_ACTIVE"

abbrev begin_search : Bool → Option GoError × Bool
begin_search true = (some active, true)
begin_search false = (none, true)

unfoldable box : Session Bool
box = record {
  find_objects_init = λ t b. begin_search b;
  find_objects = λ n b. (ok (take n (7 ∷ [])), b);
  find_objects_final = λ b. false;
  get_attribute_value = λ h ts b. (ok ((a_label, 107 ∷ []) ∷ (a_key_type, 0 ∷ []) ∷ []), b);
  sign_init = λ m h b. (none, b);
  sign = λ hash b. (ok hash, b);
  verify_init = λ m h b. (none, b);
  verify = λ hash signature b. (none, b);
  encrypt_init = λ m h b. (none, b);
  encrypt = λ text b. (ok text, b);
  decrypt_init = λ m h b. (none, b);
  decrypt = λ text b. (ok text, b);
  destroy_object = λ h b. (none, b);
  generate_key_pair = λ m t t' b. (ok (8, 9), b);
  session_info = λ b. (none, b);
  logout = λ b. b;
  close_session = λ b. b;
  is_signature_invalid = λ e. true;
  text_of = λ bytes. "k";
}

abbrev encodings : Encodings
encodings = record {
  marshal_oid = λ oid. ok [];
  unmarshal_oid = λ bytes. ok [];
  unmarshal_octets = λ bytes. err (plain "asn1: structure error");
  oid_text = λ oid. "";
  marshal_rsa = λ n e. ok (1 ∷ []);
  marshal_ec = λ c x y. ok (2 ∷ []);
}

search_refused :
    (b : Bool)
    → b ≡ true
    → (e : GoError) × ((begin_search b).0 ≡ some e) × ((begin_search b).1 ≡ true)
search_refused true h = (active, refl, refl)
search_refused false h = absurd (ground (arith, h))

box-SearchLaws : SearchLaws box
unfolding box
box-SearchLaws = record {
  Searching = λ b. b ≡ true;
  started = λ t b h. ground arith;
  refused = λ t b h. search_refused b h;
  after_find = λ n b h. h;
  after_get = λ handle ts b h. h;
  length-find = λ n b handles h. ground (arith, h, length-take {A = ℕ} n (7 ∷ []));
}

abbrev open_client : World (Client Bool)
open_client = record { env = record { closed = false; behind = false }; trace = [] }

abbrev listed_key : HsmKey
listed_key = record {
  label = "k";
  type = "RSA";
  size = 0;
  tenant_id = "";
  public_key = [];
  key_handle = "k";
  is_active = true;
  usage = both;
}

list_keys-Unpublished_example :
    Unpublished (listed_key ∷ []) × (length (listed_key ∷ []) ≤ object_batch_size)
unfolding softhsm_list_keys box
list_keys-Unpublished_example =
    list_keys-Unpublished box box-SearchLaws true open_client (listed_key ∷ []) refl

verify_signature-Verdict_example :
    Verdict box "k"
      (1 ∷ [])
      (1 ∷ [])
      (softhsm_verify_signature box true "k" (1 ∷ []) (1 ∷ []) open_client).0
verify_signature-Verdict_example =
    verify_signature-Verdict box "k" (1 ∷ []) (1 ∷ []) true open_client

generate_key_pair-Generates_example :
    let q = softhsm_generate_key_pair box encodings true "RSA" (pos 2048) "acme_k" open_client in
    Generates box encodings "acme_k" false q.0 q.1.env.behind
generate_key_pair-Generates_example =
    generate_key_pair-Generates box encodings true "RSA" (pos 2048) "acme_k" open_client

close-IsFailed_example :
    let c = softhsm_close box open_client in
    (softhsm_close box c ≡ c)
    × ((label : String) (hash : Bytes) → IsFailed (softhsm_sign_hash box true label hash c).0)
    × ((label : String) (hash signature : Bytes)
        → IsFailed (softhsm_verify_signature box true label hash signature c).0)
    × ((label : String) (text : Bytes) → IsFailed (softhsm_encrypt box label text c).0)
    × ((label : String) (text : Bytes) → IsFailed (softhsm_decrypt box label text c).0)
    × ((label : String) → IsFailed (softhsm_delete_key box true label c).0)
    × ((algorithm label : String) (size : ℤ)
        → IsFailed (softhsm_generate_key_pair box encodings true algorithm size label c).0)
    × IsFailed (softhsm_health_check box true c).0
close-IsFailed_example = close-IsFailed box encodings true open_client
