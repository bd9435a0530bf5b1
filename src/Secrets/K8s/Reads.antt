-- ===== src/Secrets/K8s/Reads.antt =====
-- k8s_manager.go: `GetKey` against the secret itself, with no cache between.
use hsm_service.Prelude.{
  inl, inr, ◌≡◌, refl, sym, subst, String, none, some, List, [], ◌∷◌, length, str_eq, eq_iff, arith,
  Bool-cases,
}
use hsm_service.Domain.Entities.{Bytes}
use hsm_service.Exec.{Reply, ok, err}
use hsm_service.Aes.{Aead}
use hsm_service.Secrets.K8s.{
  Secret, K8sConfig, K8sAesKeyManager, Cluster, entry_of, secret_key, k8s_get_key, new_k8s_manager,
}
use hsm_service.Secrets.K8s.Cache.{Call, perform_all, perform_all_keeps}
use hsm_service.Secrets.K8s.Lookups.{Got, hit, filled, unanswered, get_key-Got, length-secret_key}

-- Every entry of a list of keys.
Each : (String → Bytes → Type 0) → List (String × Bytes) → Type 0
Each P [] = Unit {0}
Each P ((key_id, key) ∷ rest) = P key_id key × Each P rest

Each-entry :
    (P : String → Bytes → Type 0) (key_id : String) (key : Bytes) (cache : List (String × Bytes))
    → Each P cache
    → entry_of key_id cache ≡ some key
    → P key_id key
unfolding entry_of Each
Each-entry P key_id key [] h e = absurd (ground (arith, e))
Each-entry P key_id key ((other, v) ∷ rest) (p, h) e = elim (Bool-cases (str_eq other key_id)) [
  | inl same ↦
      let hv : v ≡ key = ground (arith, e, same) in
      subst (λ a. P a key) ((eq_iff other key_id).0 same) (subst (λ b. P other b) hv p)
  | inr differ ↦ Each-entry P key_id key rest h (ground (arith, e, differ))
]

module _ {W : Type 0} (C : Aead W) (K : Cluster W) (P : K8sConfig → String → Bytes → Type 0) where
  -- The manager has this configuration, and what it caches for an id has the property.
  Follows : K8sConfig → K8sAesKeyManager → Type 0
  Follows config k = (k.config ≡ config) × Each (P config) k.key_cache

  Got-Follows :
      (config : K8sConfig) (key_id : String) (k : K8sAesKeyManager) (w : W)
      (r : Reply Bytes × (K8sAesKeyManager × W))
      → ((key : Bytes)
          → secret_key K config key_id (K.get_secret config.secret_namespace config.secret_name w).0
            ≡ ok key
          → P config key_id key)
      → Got K key_id k w r
      → Follows config k
      → Follows config r.1.0
  unfolding Follows Each
  Got-Follows config key_id k w _ p (hit e) h = h
  Got-Follows config key_id k w _ p (filled {key} hn e) (hc, h) =
      let e' =
        subst
          (λ c. secret_key K c key_id (K.get_secret c.secret_namespace c.secret_name w).0 ≡ ok key)
          hc e in
      (hc, (p key e', h))
  Got-Follows config key_id k w _ p (unanswered e) h = h

  all-Follows :
      (config : K8sConfig)
      → ((key_id : String) (w : W) (key : Bytes)
          → secret_key K config key_id (K.get_secret config.secret_namespace config.secret_name w).0
            ≡ ok key
          → P config key_id key)
      → (calls : List Call) (s : K8sAesKeyManager × W) → Follows config s.0
      → Follows config (perform_all C K calls s).0
  all-Follows config p calls s h =
      perform_all_keeps C K (Follows config)
        (λ key_id s' h'.
          Got-Follows config key_id s'.0 s'.1 (k8s_get_key K key_id s') (p key_id s'.1)
            (get_key-Got K key_id s') h')
        calls s h

  new-Follows :
      (config : K8sConfig) (k : K8sAesKeyManager)
      → new_k8s_manager none config ≡ ok k
      → Follows k.config k
  unfolding Follows Each new_k8s_manager
  new-Follows config k h =
      let e : k.key_cache ≡ [] = ground (arith, h) in (refl, subst (Each (P k.config)) (sym e) tt)

module _ {W : Type 0} (C : Aead W) (K : Cluster W) where
  HasSize : K8sConfig → String → Bytes → Type 0
  HasSize config key_id key = length key ≡ 32

  -- The key that a manager gives, after any calls since it was made and whatever the cluster
  -- answers, has 32 bytes.
  pub length-get_key :
      (config : K8sConfig) (k : K8sAesKeyManager) (w : W) (calls : List Call) (key_id : String)
      (key : Bytes)
      → new_k8s_manager none config ≡ ok k
      → (k8s_get_key K key_id (perform_all C K calls (k, w))).0 ≡ ok key
      → length key ≡ 32
  unfolding HasSize Follows
  length-get_key config k w calls key_id key made h =
      let s = perform_all C K calls (k, w) in
      sized_here s.0 s.1 (k8s_get_key K key_id s) (get_key-Got K key_id s)
        (all-Follows C K HasSize k.config
          (λ other w' v.
            length-secret_key K k.config other
              (K.get_secret k.config.secret_namespace k.config.secret_name w').0 v)
          calls (k, w) (new-Follows C K HasSize config k made)).1
        h
    where
      sized_here :
          (k' : K8sAesKeyManager) (w' : W) (r : Reply Bytes × (K8sAesKeyManager × W))
          → Got K key_id k' w' r
          → Each (HasSize k.config) k'.key_cache
          → r.0 ≡ ok key
          → length key ≡ 32
      sized_here k' w' _ (hit {key = v} e) each h' =
          let hv : v ≡ key = ground (arith, h') in
          subst (λ b. length b ≡ 32) hv (Each-entry (HasSize k.config) key_id v k'.key_cache each e)
      sized_here k' w' _ (filled {key = v} hn e) each h' =
          length-secret_key K k'.config key_id
            (K.get_secret k'.config.secret_namespace k'.config.secret_name w').0 key
            (ground (arith, e, h'))
      sized_here k' w' _ (unanswered e) each h' = absurd (ground (arith, h'))

  -- Where the cluster answers the same at any time, `GetKey` on a manager, after any calls since it
  -- was made, gives what it would make of that answer with no cache.
  pub get_key-secret_key :
      (config : K8sConfig) (k : K8sAesKeyManager) (answer : Reply Secret)
      → new_k8s_manager none config ≡ ok k
      → ((w : W) → (K.get_secret k.config.secret_namespace k.config.secret_name w).0 ≡ answer)
      → (w : W) (calls : List Call) (key_id : String)
      → (k8s_get_key K key_id (perform_all C K calls (k, w))).0
        ≡ secret_key K k.config key_id answer
  unfolding Follows
  get_key-secret_key config k answer made steady w calls key_id =
      let s = perform_all C K calls (k, w) in
      let follows =
        all-Follows C K Answered k.config
          (λ other w' v h. subst (λ a. secret_key K k.config other a ≡ ok v) (steady w') h) calls
          (k, w) (new-Follows C K Answered config k made) in
      answered s.0 s.1 (k8s_get_key K key_id s) (get_key-Got K key_id s) follows.0 follows.1
    where
      Answered : K8sConfig → String → Bytes → Type 0
      Answered c other v = secret_key K c other answer ≡ ok v

      read :
          (k' : K8sAesKeyManager) (w' : W) (r : Reply Bytes)
          → k'.config ≡ k.config
          → secret_key K k'.config key_id
              (K.get_secret k'.config.secret_namespace k'.config.secret_name w').0
            ≡ r
          → r ≡ secret_key K k.config key_id answer
      read k' w' r hc h = sym (
          subst (λ a. secret_key K k.config key_id a ≡ r) (steady w')
            (subst
              (λ c. secret_key K c key_id (K.get_secret c.secret_namespace c.secret_name w').0 ≡ r)
              hc h))

      answered :
          (k' : K8sAesKeyManager) (w' : W) (r : Reply Bytes × (K8sAesKeyManager × W))
          → Got K key_id k' w' r
          → k'.config ≡ k.config
          → Each (Answered k.config) k'.key_cache
          → r.0 ≡ secret_key K k.config key_id answer
      answered k' w' _ (hit {key = v} e) hc each =
          sym (Each-entry (Answered k.config) key_id v k'.key_cache each e)
      answered k' w' _ (filled {key = v} hn e) hc each = read k' w' (ok v) hc e
      answered k' w' _ (unanswered {x = x} e) hc each = read k' w' (err x) hc e
