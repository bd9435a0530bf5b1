-- ===== src/Hsm/Pool/Permits.antt =====
-- session_pool.go: what one call of `GetSession` does to the permits.
use hsm_service.Prelude.{
  ℕ, zero, suc, ◌≤◌, ◌≡◌, refl, sym, ap, Bool, true, false, not, if◌then◌else◌, List, [], ◌∷◌,
  Bool-cases, arith, ◌⊎◌, inl, inr,
}
use hsm_service.Domain.Errors.{GoError, wrapped}
use hsm_service.Exec.{Reply, ok, err, Outcome, returned, failed}
use hsm_service.Hsm.Pool.{
  Token, Semaphore, Pool, Done, alive, ended, Login, logged_in, already_logged_in, refused,
  not_initialized, create_session, opened, logged, select_session, chosen, get_session, permitted,
  released,
}
use hsm_service.Hsm.Pool.Laws.{SemaphoreLaws}

module _ {W S : Type 0} (T : Token W) (L : Semaphore S) (Law : SemaphoreLaws L) where
  -- The token opens the session on the pool's slot, and the login with its PIN is accepted.
  abbrev pub Opens : Pool W S → ℕ → Type 0
  Opens p session =
      ((T.open_session p.slot_id p.env).0 ≡ ok session)
      × (let r = (T.login session p.pin (T.open_session p.slot_id p.env).1).0 in
          (r ≡ logged_in) ⊎ (r ≡ already_logged_in))

  -- The token opens no session, or it refuses the login and the session is closed again, which
  -- leaves `e`.
  abbrev pub OpensNone : Pool W S → W → Type 0
  OpensNone p e =
      ((x : GoError) × ((T.open_session p.slot_id p.env).0 ≡ err x))
      ⊎ ((session : ℕ) × (x : GoError) × ((T.open_session p.slot_id p.env).0 ≡ ok session)
          × (let r = T.login session p.pin (T.open_session p.slot_id p.env).1 in
              (r.0 ≡ refused x) × (e ≡ T.close_session session r.1)))

  -- The outcome of a `GetSession` on the pool `p`, whose context is `d`, and the pool `q` after it.
  pub data Gets (d : Done) (p : Pool W S) (o : Outcome ℕ) (q : Pool W S) : Type 0 where
    not_permitted :
        (x : GoError)
        → (p.initialized ≡ false) ⊎ ((y : GoError) × (L.acquire p.sem ≡ err y))
        → o ≡ failed x
        → q ≡ p
        → Gets d p o q
    reused :
        (session : ℕ) (rest : List ℕ)
        → o ≡ returned session
        → p.sessions ≡ session ∷ rest
        → q.sessions ≡ rest
        → Law.free p.sem ≡ suc (Law.free q.sem)
        → Gets d p o q
    made :
        (session : ℕ)
        → Opens p session
        → o ≡ returned session
        → p.sessions ≡ []
        → q.sessions ≡ []
        → Law.free p.sem ≡ suc (Law.free q.sem)
        → Gets d p o q
    given_back :
        (x : GoError) (first : Bool)
        → d ≡ ended x first
        → o ≡ failed x
        → q.sessions ≡ p.sessions
        → Law.free q.sem ≡ Law.free p.sem
        → Gets d p o q
    lost :
        (x : GoError)
        → OpensNone p q.env
        → o ≡ failed x
        → p.sessions ≡ []
        → q.sessions ≡ []
        → Law.free p.sem ≡ suc (Law.free q.sem)
        → Gets d p o q

module _ {W S : Type 0} (T : Token W) (L : Semaphore S) (Law : SemaphoreLaws L) where
  abbrev Ends : Pool W S → Outcome ℕ × Pool W S → Type 0
  Ends p r =
      (((session : ℕ) × (r.0 ≡ returned session) × Opens T L Law p session)
        ⊎ ((x : GoError) × (r.0 ≡ failed x) × OpensNone T L Law p r.1.env))
      × (r.1.sessions ≡ p.sessions)
      × (r.1.sem ≡ p.sem)

  logged-Ends :
      (session : ℕ) (e : W) (r : Login × W) (p : Pool W S)
      → (T.open_session p.slot_id p.env).0 ≡ ok session
      → T.login session p.pin (T.open_session p.slot_id p.env).1 ≡ r
      → Ends p (logged T L session r p)
  unfolding logged
  logged-Ends session e (logged_in, e') p o l =
      (inl (session, refl, (o, inl (ap (λ x. x.0) l))), refl, refl)
  logged-Ends session e (already_logged_in, e') p o l =
      (inl (session, refl, (o, inr (ap (λ x. x.0) l))), refl, refl)
  logged-Ends session e (refused x, e') p o l = (
    inr (
      wrapped "failed to login" x,
      refl,
      inr (session, x, o, (ap (λ y. y.0) l, ap (λ y. T.close_session session y.1) (sym l))),
    ),
    refl,
    refl,
  )

  opened-Ends :
      (r : Reply ℕ × W) (p : Pool W S)
      → T.open_session p.slot_id p.env ≡ r
      → Ends p (opened T L r p)
  unfolding opened
  opened-Ends (ok session, e) p o =
      logged-Ends session e (T.login session p.pin e) p (ap (λ x. x.0) o)
        (ap (λ x. T.login session p.pin x.1) o)
  opened-Ends (err x, e) p o =
      (inr (wrapped "failed to open session" x, refl, inl (x, ap (λ y. y.0) o)), refl, refl)

  create_session-Ends : (p : Pool W S) → Ends p (create_session T L p)
  unfolding create_session
  create_session-Ends p = opened-Ends (T.open_session p.slot_id p.env) p refl

  released-Gets :
      (x : GoError) (first : Bool) (p : Pool W S) (s : S)
      → L.acquire p.sem ≡ ok s
      → Law.free p.sem ≤ Law.size p.sem
      → let (o, q) = released T L (failed x) (record p { sem = s }) in
        Gets T L Law (ended x first) p o q
  unfolding released
  released-Gets x first p s a b =
      let f = Law.acquire_free p.sem s a in
      let z = Law.acquire_size p.sem s a in
      let (s', r) = Law.release_some s (omega (arith, b, f, z)) in
      let g = Law.release_free s s' r in
      given_back x first refl (ground (arith, r)) (ground (arith, r)) (ground (arith, r, g, f))

  made-Gets :
      (d : Done) (p : Pool W S) (s : S)
      → L.acquire p.sem ≡ ok s
      → p.sessions ≡ []
      → let (o, q) = create_session T L (record p { sem = s }) in Gets T L Law d p o q
  made-Gets d p s a n =
      let f = Law.acquire_free p.sem s a in
      let (ends, h1, h2) = create_session-Ends (record p { sem = s }) in
      elim ends [
        | inl (session, e, o) ↦ made session o e n (ground (arith, h1, n)) (ground (arith, h2, f))
        | inr (x, e, o) ↦ lost x o e n (ground (arith, h1, n)) (ground (arith, h2, f))
      ]

  chosen-Gets :
      (d : Done) (sessions : List ℕ) (p : Pool W S) (s : S)
      → L.acquire p.sem ≡ ok s
      → Law.free p.sem ≤ Law.size p.sem
      → p.sessions ≡ sessions
      → let (o, q) = chosen T L d sessions (record p { sem = s }) in Gets T L Law d p o q
  unfolding chosen
  chosen-Gets alive [] p s a b n = made-Gets alive p s a n
  chosen-Gets alive (session ∷ rest) p s a b n =
      reused session rest refl n refl (Law.acquire_free p.sem s a)
  chosen-Gets (ended x first) [] p s a b n = released-Gets x first p s a b
  chosen-Gets (ended x true) (session ∷ rest) p s a b n = released-Gets x true p s a b
  chosen-Gets (ended x false) (session ∷ rest) p s a b n =
      reused session rest refl n refl (Law.acquire_free p.sem s a)

  permitted-Gets :
      (d : Done) (r : Reply S) (p : Pool W S)
      → L.acquire p.sem ≡ r
      → Law.free p.sem ≤ Law.size p.sem
      → let (o, q) = permitted T L r d p in Gets T L Law d p o q
  unfolding permitted select_session
  permitted-Gets d (err x) p a b =
      not_permitted (wrapped "failed to acquire semaphore" x) (inr (x, a)) refl refl
  permitted-Gets d (ok s) p a b = chosen-Gets d p.sessions p s a b refl

  guarded-Gets :
      (t : Bool) (d : Done) (p : Pool W S)
      → p.initialized ≡ t
      → Law.free p.sem ≤ Law.size p.sem
      → let (o, q) =
          if not t then (failed not_initialized, p) else permitted T L (L.acquire p.sem) d p in
        Gets T L Law d p o q
  guarded-Gets true d p i b = permitted-Gets d (L.acquire p.sem) p refl b
  guarded-Gets false d p i b = not_permitted not_initialized (inl i) refl refl

  -- `GetSession` on every branch. It ends with a session, the oldest idle one or, when none is idle,
  -- one that the token opened on the pool's slot and logged in, and has one permit less; or it fails
  -- and the pool is as before, since it is not initialized or no permit was given; or its context
  -- ended, and it fails with all permits back; or no session is idle and the token opened none or
  -- refused the login, after which the session is closed: then a permit is lost with the failure.
  pub get_session-Gets :
      (d : Done) (p : Pool W S)
      → Law.free p.sem ≤ Law.size p.sem
      → let (o, q) = get_session T L d p in Gets T L Law d p o q
  unfolding get_session
  get_session-Gets d p b = guarded-Gets p.initialized d p refl b

  -- `n` calls one after the other, with a context that lives.
  abbrev pub attempts : ℕ → Pool W S → Pool W S
  attempts zero p = p
  attempts (suc n) p = attempts n (get_session T L alive p).1

  attempts_exhaust :
      (n : ℕ) (p : Pool W S)
      → ((slot : ℕ) (e : W) → (x : GoError) × ((T.open_session slot e).0 ≡ err x))
      → p.sessions ≡ []
      → p.initialized ≡ true
      → Law.free p.sem ≡ n
      → Law.free (attempts n p).sem ≡ 0
  unfolding get_session permitted select_session chosen create_session opened
  attempts_exhaust zero p bad h t f = f
  attempts_exhaust (suc n) p bad h t f =
      let (s, a) = Law.acquire_some p.sem n f in
      let (x, e) = bad p.slot_id p.env in
      attempts_exhaust n (get_session T L alive p).1 bad (ground (arith, h, t, a, e))
        (ground (arith, h, t, a, e)) (ground (arith, h, t, a, e, f, Law.acquire_free p.sem s a))

module _ {W S : Type 0} (T : Token W) (L : Semaphore S) (Law : SemaphoreLaws L) where
  -- While the token opens no session, each `GetSession` on a pool with no idle session loses a
  -- permit. After as many calls as there were free permits, although no session is lent, every
  -- `GetSession` fails, also on a token that works again.
  pub get_session_starves :
      (working : Token W) (p : Pool W S) (d : Done)
      → ((slot : ℕ) (e : W) → (x : GoError) × ((T.open_session slot e).0 ≡ err x))
      → p.sessions ≡ []
      → p.initialized ≡ true
      → (x : GoError) × ((get_session working L d (attempts T L Law (Law.free p.sem) p)).0
          ≡ failed x)
  unfolding get_session permitted
  get_session_starves working p d bad h t =
      let q = attempts T L Law (Law.free p.sem) p in
      let (x, a) =
        Law.acquire_none q.sem (attempts_exhaust T L Law (Law.free p.sem) p bad h t refl) in
      elim (Bool-cases q.initialized) [
        | inl i ↦ (wrapped "failed to acquire semaphore" x, ground (arith, i, a))
        | inr i ↦ (not_initialized, ground (arith, i))
      ]
