-- ===== src/Secrets/Adapter/Values.antt =====
-- aes_key_manager_adapter.go over local_manager.go: the adapter's own encryption against the
-- manager's, over any sequence of calls, and what is recorded of them.
use hsm_service.Prelude.{
  inl, inr, Bool-cases, ◌≡◌, refl, ap, ◌∙◌, subst, String, Bool, true, false, Option, none, some,
  List, [], ◌∷◌, map, length, ◌==◌, arith,
}
use hsm_service.Domain.Errors.{GoError}
use hsm_service.Domain.Entities.{Bytes, Detail}
use hsm_service.Exec.{Reply, ok, err}
use hsm_service.Ports.AesKeys.{AesKeyManager}
use hsm_service.Aes.{Aead, EncryptAesGcm, with_error, encrypt_aes_gcm, decrypt_aes_gcm}
use hsm_service.Secrets.{
  LocalAesKeyManager, generate_data_key, local_wrap_key, local_unwrap_key, rewrap_key, tagged,
  encrypt_error, get_key, get_current_key_id, encrypt_under, encrypt_with_key_id,
  decrypt_with_key_id, encrypt_with_key, decrypt_with_key,
}
use hsm_service.Secrets.Adapter.{
  length_detail, KeyRecord, Audited, recorded, plain_call, encrypt_got, decrypt_got, encrypt_by_id,
  decrypt_by_id, adapter, adapter_get_key, adapter_generate_data_key, adapter_wrap_key,
  adapter_unwrap_key, adapter_encrypt_with_key_id, adapter_decrypt_with_key_id,
  adapter_encrypt_with_key, adapter_decrypt_with_key, adapter_rewrap_key,
}
use hsm_service.Services.Slots.Recovery.{local_manager}

-- The calls of a key manager, and what they give.
pub data Request : Type 0 where
  getting : String → Request
  generating : Request
  wrapping : String → Bytes → Request
  unwrapping : String → Bytes → Request
  rewrapping : String → String → Bytes → Request
  encrypting : String → Bytes → Request
  decrypting : String → EncryptAesGcm → Request
  encrypting_with : Bytes → Bytes → Request
  decrypting_with : Bytes → EncryptAesGcm → Request

pub data Given : Type 0 where
  bytes : Bytes → Given
  sealed : EncryptAesGcm → Given

unfoldable pub given : {A W : Type 0} → (A → Given) → Reply A × W → Option Given × W
given f (ok a, w) = (some (f a), w)
given f (err e, w) = (none, w)

module _ {W : Type 0} (M : AesKeyManager W) where
  -- One call, without the texts of its errors.
  unfoldable pub request : Request → W → Option Given × W
  unfolding given
  request (getting key_id) w = given bytes (M.get_key key_id w)
  request generating w = given bytes (M.generate_data_key w)
  request (wrapping key_id key) w = given bytes (M.wrap_key key_id key w)
  request (unwrapping key_id wrapped) w = given bytes (M.unwrap_key key_id wrapped w)
  request (rewrapping old new wrapped) w = given bytes (M.rewrap_key old new wrapped w)
  request (encrypting key_id text) w = given sealed (M.encrypt_with_key_id key_id text w)
  request (decrypting key_id e) w = given bytes (M.decrypt_with_key_id key_id e w)
  request (encrypting_with key text) w = given sealed (M.encrypt_with_key key text w)
  request (decrypting_with key e) w = given bytes (M.decrypt_with_key key e w)

  unfoldable pub request_all : List Request → W → List (Option Given) × W
  unfolding request
  request_all [] w = ([], w)
  request_all (r ∷ rs) w =
      let (v, w1) = request r w in let (vs, w2) = request_all rs w1 in (v ∷ vs, w2)

abbrev is_given : Option Given → Bool
is_given none = false
is_given (some g) = true

-- The flags that the records of the calls have, newest first: none for `RewrapKey`.
unfoldable pub flag_of : Request → Option Given → List Bool → List Bool
flag_of (rewrapping old new wrapped) v flags = flags
flag_of _ v flags = is_given v ∷ flags

unfoldable pub flags_of : List Request → List (Option Given) → List Bool → List Bool
unfolding flag_of
flags_of [] vs flags = flags
flags_of (r ∷ rs) [] flags = flags
flags_of (r ∷ rs) (v ∷ vs) flags = flags_of rs vs (flag_of r v flags)

unfoldable pub successes : List KeyRecord → List Bool
successes rs = map (λ r. r.data'.success) rs

-- What the adapter gives of a call that gives what the manager's gives, and its record.
Matches : {W : Type 0} → Option Given × W → List Bool → Option Given × Audited W → Type 0
Matches p flags r = (r.0 ≡ p.0) × (r.1.env ≡ p.1) × (successes r.1.records ≡ flags)

Matched :
    {W : Type 0} → List (Option Given) × W → List Bool → List (Option Given) × Audited W → Type 0
Matched p flags r = (r.0 ≡ p.0) × (r.1.env ≡ p.1) × (successes r.1.records ≡ flags)

recorded-Matches :
    {A W : Type 0} (f : A → Given) (operation key_id : String) (metadata : List (String × Detail))
    (p : Reply A × W) (q : Option Given × W) (a : Audited W)
    → given f p ≡ q
    → Matches q
        (is_given q.0 ∷ successes a.records)
        (given f (recorded true operation key_id metadata p a))
unfolding Matches recorded given successes
recorded-Matches f operation key_id metadata (ok v, w) q a h =
    (ap (λ p. p.0) h, ap (λ p. p.1) h, ap (λ p. is_given p.0 ∷ successes a.records) h)
recorded-Matches f operation key_id metadata (err x, w) q a h =
    (ap (λ p. p.0) h, ap (λ p. p.1) h, ap (λ p. is_given p.0 ∷ successes a.records) h)

plain-Matches :
    {W : Type 0} (p : Reply Bytes × W) (a : Audited W)
    → Matches (given bytes p) (successes a.records) (given bytes (p.0, record a { env = p.1 }))
unfolding Matches given
plain-Matches (ok v, w) a = (refl, refl, refl)
plain-Matches (err x, w) a = (refl, refl, refl)

module _ {W : Type 0} (C : Aead W) (l : LocalAesKeyManager) where
  given-tagged :
      (f g : GoError → GoError) (key_id : String) (p : Reply EncryptAesGcm × W)
      → given sealed (tagged f key_id p) ≡ given sealed (tagged g key_id p)
  unfolding given tagged
  given-tagged f g key_id (ok e, w) = refl
  given-tagged f g key_id (err x, w) = refl

  given-with_error :
      (f : GoError → GoError) (r : Reply Bytes) (w : W)
      → given bytes (r, w) ≡ given bytes (with_error f r, w)
  unfolding given
  given-with_error f (ok b) w = refl
  given-with_error f (err x) w = refl

  encrypted_same :
      (key text : Bytes) (w : W)
      → given sealed (tagged (λ x. x) l.key_id (encrypt_aes_gcm C key text w))
        ≡ given sealed (encrypt_with_key C l key text w)
  unfolding encrypt_with_key encrypt_aes_gcm given tagged
  encrypted_same key text w = elim (Bool-cases (length key == 32)) [
    | inl h ↦
        ground
          (arith, h, given-tagged (λ x. x) encrypt_error l.key_id (encrypt_aes_gcm C key text w))
    | inr h ↦ ground (arith, h)
  ]

  decrypted_same :
      (key : Bytes) (e : EncryptAesGcm) (w : W)
      → given bytes (decrypt_aes_gcm C key e, w) ≡ given bytes (decrypt_with_key C l key e, w)
  unfolding decrypt_with_key decrypt_aes_gcm given
  decrypted_same key e w = elim (Bool-cases (length key == 32)) [
    | inl h ↦ ground (arith, h, given-with_error _ (decrypt_aes_gcm C key e) w)
    | inr h ↦ ground (arith, h)
  ]

  request-Matches :
      (r : Request) (a : Audited W)
      → let q = request (local_manager C l) r a.env in
        Matches q
          (flag_of r q.0 (successes a.records))
          (request (adapter C (local_manager C l) true) r a)
  unfolding request adapter local_manager adapter_get_key adapter_generate_data_key adapter_wrap_key
      adapter_unwrap_key adapter_encrypt_with_key_id adapter_decrypt_with_key_id
      adapter_encrypt_with_key adapter_decrypt_with_key adapter_rewrap_key flag_of Matches
      plain_call given encrypt_by_id encrypt_got decrypt_by_id decrypt_got encrypt_with_key_id
      encrypt_under get_key decrypt_with_key_id get_current_key_id
  request-Matches (getting key_id) a =
      recorded-Matches bytes "get_key" key_id [] (ok l.master_key, a.env) _ a refl
  request-Matches generating a =
      recorded-Matches bytes "generate_data_key" "" [] (generate_data_key C l a.env) _ a refl
  request-Matches (wrapping key_id key) a =
      recorded-Matches bytes "wrap_key" key_id (length_detail "plaintext_key_length" key)
        (local_wrap_key C l key_id key a.env) _ a refl
  request-Matches (unwrapping key_id wrapped) a =
      recorded-Matches bytes "unwrap_key" key_id (length_detail "wrapped_key_length" wrapped)
        (local_unwrap_key C l key_id wrapped, a.env) _ a refl
  request-Matches (rewrapping old new wrapped) a =
      plain-Matches (rewrap_key C l old new wrapped a.env) a
  request-Matches (encrypting key_id text) a =
      recorded-Matches sealed "encrypt_aes_gcm" key_id (length_detail "plaintext_length" text)
        (encrypt_by_id C (local_manager C l) key_id text a.env) _ a
        (given-tagged (λ x. x) encrypt_error key_id (encrypt_aes_gcm C l.master_key text a.env))
  request-Matches (decrypting key_id e) a =
      recorded-Matches bytes "decrypt_aes_gcm" key_id
        (length_detail "encrypted_length" e.ciphertext)
        (decrypt_by_id C (local_manager C l) key_id e a.env) _ a (ground arith)
  request-Matches (encrypting_with key text) a =
      recorded-Matches sealed "encrypt_aes_gcm" l.key_id (length_detail "plaintext_length" text)
        (tagged (λ x. x) l.key_id (encrypt_aes_gcm C key text a.env)) _ a
        (encrypted_same key text a.env)
  request-Matches (decrypting_with key e) a =
      recorded-Matches bytes "decrypt_aes_gcm" e.key_id
        (length_detail "encrypted_length" e.ciphertext) (decrypt_aes_gcm C key e, a.env) _ a
        (decrypted_same key e a.env)

  requests_match :
      (rs : List Request) (a : Audited W) (flags : List Bool)
      → successes a.records ≡ flags
      → let q = request_all (local_manager C l) rs a.env in
        Matched q (flags_of rs q.0 flags) (request_all (adapter C (local_manager C l) true) rs a)
  unfolding request_all flags_of Matched Matches
  requests_match [] a flags h = (refl, refl, h)
  requests_match (r ∷ rs) a flags h =
      let M = local_manager C l in
      let N = adapter C M true in
      let q = request M r a.env in
      let (e0, e1, e2) = request-Matches r a in
      let a1 = (request N r a).1 in
      let ih =
        subst
          (λ w.
            Matched (request_all M rs w) (flags_of rs (request_all M rs w).0 (flag_of r q.0 flags))
              (request_all N rs a1))
          e1 (requests_match rs a1 (flag_of r q.0 flags) (e2 ∙ ap (flag_of r q.0) h)) in
      (ap (λ v. v ∷ (request_all N rs a1).0) e0 ∙ ap (λ vs. q.0 ∷ vs) ih.0, ih.1, ih.2)

  -- Whatever calls are made one after the other, the audited adapter over a local manager gives the
  -- values that the manager gives, also where it encrypts by itself, and leaves what is behind them
  -- the same. Each call but `RewrapKey` adds one record, a success exactly when it gave a value.
  pub adapter-local :
      (rs : List Request) (a : Audited W)
      → let q = request_all (local_manager C l) rs a.env in
        let r = request_all (adapter C (local_manager C l) true) rs a in
        (r.0 ≡ q.0)
        × (r.1.env ≡ q.1)
        × (successes r.1.records ≡ flags_of rs q.0 (successes a.records))
  unfolding Matched
  adapter-local rs a = requests_match rs a (successes a.records) refl
