-- ===== src/Secrets/K8s/Lookups.antt =====
-- k8s_manager.go: what `GetKey` gives after any calls.
use hsm_service.Prelude.{
  inl, inr, ◌≡◌, refl, ap, String, Option, none, some, List, ◌∷◌, length, str_eq, eq_iff, eq_refl,
  arith, Bool-cases,
}
use hsm_service.Domain.Errors.{GoError}
use hsm_service.Domain.Entities.{Bytes}
use hsm_service.Exec.{Reply, ok, err}
use hsm_service.Aes.{Aead, and_then}
use hsm_service.Secrets.K8s.{
  Secret, K8sConfig, K8sAesKeyManager, Cluster, entry_of, secret_key_field, field_of, decoded,
  secret_key, sized, stored, looked_up, k8s_get_key,
}
use hsm_service.Secrets.K8s.Cache.{Call, perform_all, perform_all_keeps}

and_then_gives :
    {A B : Type 0} (r : Reply A) (f : A → Reply B) (b : B)
    → and_then r f ≡ ok b
    → (a : A) × (f a ≡ ok b)
and_then_gives (ok a) f b h = (a, h)
and_then_gives (err e) f b h = absurd (ground (arith, h))

length-sized : (b key : Bytes) → sized b ≡ ok key → length key ≡ 32
unfolding sized
length-sized b key h = ground (arith, h)

module _ {W : Type 0} (K : Cluster W) where
  pub length-secret_key :
      (config : K8sConfig) (key_id : String) (answer : Reply Secret) (key : Bytes)
      → secret_key K config key_id answer ≡ ok key
      → length key ≡ 32
  unfolding secret_key
  length-secret_key config key_id (err x) key h = absurd (ground (arith, h))
  length-secret_key config key_id (ok fields) key h =
      let (d, hd) =
        and_then_gives
          (field_of config (secret_key_field config key_id)
            (entry_of (secret_key_field config key_id) fields))
          (λ d. and_then (decoded K d) sized) key h in
      let (b, hb) = and_then_gives (decoded K d) sized key hd in length-sized b key hb

  -- How `GetKey` can end: with what is cached, with a key that is now cached, or with an error.
  pub data Got (key_id : String) (k : K8sAesKeyManager) (w : W)
      : Reply Bytes × (K8sAesKeyManager × W) → Type 0 where
    hit : {key : Bytes} → entry_of key_id k.key_cache ≡ some key → Got key_id k w (ok key, (k, w))
    filled :
        {key : Bytes} {w' : W}
        → entry_of key_id k.key_cache ≡ none
        → secret_key K k.config key_id
            (K.get_secret k.config.secret_namespace k.config.secret_name w).0
          ≡ ok key
        → Got key_id k w (ok key, (record k { key_cache = (key_id, key) ∷ k.key_cache }, w'))
    unanswered :
        {x : GoError} {w' : W}
        → secret_key K k.config key_id
            (K.get_secret k.config.secret_namespace k.config.secret_name w).0
          ≡ err x
        → Got key_id k w (err x, (k, w'))

  stored-Got :
      (key_id : String) (k : K8sAesKeyManager) (w w' : W) (r : Reply Bytes)
      → entry_of key_id k.key_cache ≡ none
      → secret_key K k.config key_id
          (K.get_secret k.config.secret_namespace k.config.secret_name w).0
        ≡ r
      → Got key_id k w (stored K key_id r (k, w'))
  unfolding stored
  stored-Got key_id k w w' (ok key) hn h = filled hn h
  stored-Got key_id k w w' (err x) hn h = unanswered h

  looked_up-Got :
      (key_id : String) (k : K8sAesKeyManager) (w : W) (o : Option Bytes)
      → entry_of key_id k.key_cache ≡ o
      → Got key_id k w (looked_up K key_id o (k, w))
  unfolding looked_up
  looked_up-Got key_id k w none h =
      let answer = K.get_secret k.config.secret_namespace k.config.secret_name w in
      stored-Got key_id k w answer.1 (secret_key K k.config key_id answer.0) h refl
  looked_up-Got key_id k w (some key) h = hit h

  pub get_key-Got :
      (key_id : String) (s : K8sAesKeyManager × W) → Got key_id s.0 s.1 (k8s_get_key K key_id s)
  unfolding k8s_get_key
  get_key-Got key_id (k, w) = looked_up-Got key_id k w (entry_of key_id k.key_cache) refl

  module _ (C : Aead W) where
    entry_pushed :
        (key_id other : String) (key v : Bytes) (rest : List (String × Bytes))
        → entry_of other rest ≡ none
        → entry_of key_id rest ≡ some key
        → entry_of key_id ((other, v) ∷ rest) ≡ some key
    unfolding entry_of
    entry_pushed key_id other key v rest hn h = elim (Bool-cases (str_eq other key_id)) [
      | inl same ↦
          absurd (ground (arith, h, hn, ap (λ a. entry_of a rest) ((eq_iff other key_id).0 same)))
      | inr differ ↦ ground (arith, h, differ)
    ]

    kept_entry :
        (key_id : String) (key : Bytes) (other : String) (k : K8sAesKeyManager) (w : W)
        (r : Reply Bytes × (K8sAesKeyManager × W))
        → Got other k w r
        → entry_of key_id k.key_cache ≡ some key
        → entry_of key_id r.1.0.key_cache ≡ some key
    kept_entry key_id key other k w _ (hit e) h = h
    kept_entry key_id key other k w _ (filled {key = v} hn e) h =
        entry_pushed key_id other key v k.key_cache hn h
    kept_entry key_id key other k w _ (unanswered e) h = h

    first_entry :
        (key_id : String) (key : Bytes) (k : K8sAesKeyManager) (w : W)
        (r : Reply Bytes × (K8sAesKeyManager × W))
        → Got key_id k w r
        → r.0 ≡ ok key
        → entry_of key_id r.1.0.key_cache ≡ some key
    unfolding entry_of
    first_entry key_id key k w _ (hit e) h = ground (arith, e, h)
    first_entry key_id key k w _ (filled hn e) h = ground (arith, h, eq_refl key_id)
    first_entry key_id key k w _ (unanswered e) h = absurd (ground (arith, h))

    cached_answer :
        (key_id : String) (key : Bytes) (s : K8sAesKeyManager × W)
        → entry_of key_id s.0.key_cache ≡ some key
        → k8s_get_key K key_id s ≡ (ok key, s)
    unfolding k8s_get_key looked_up
    cached_answer key_id key (k, w) h = ap (λ o. looked_up K key_id o (k, w)) h

    -- Once `GetKey` gave a key for an id, it gives the same key after any further calls, whatever the
    -- secret has become, and neither asks the cluster nor changes the manager.
    pub get_key_again :
        (key_id : String) (key : Bytes) (s : K8sAesKeyManager × W) (calls : List Call)
        → (k8s_get_key K key_id s).0 ≡ ok key
        → let later = perform_all C K calls (k8s_get_key K key_id s).1 in
          k8s_get_key K key_id later ≡ (ok key, later)
    get_key_again key_id key s calls h =
        cached_answer key_id key (perform_all C K calls (k8s_get_key K key_id s).1) (
          perform_all_keeps C K (λ k. entry_of key_id k.key_cache ≡ some key)
            (λ other s' h'.
              kept_entry key_id key other s'.0 s'.1 (k8s_get_key K other s') (get_key-Got other s')
                h')
            calls (k8s_get_key K key_id s).1
            (first_entry key_id key s.0 s.1 (k8s_get_key K key_id s) (get_key-Got key_id s) h))
