-- ===== src/Hsm/Pool/Steps.antt =====
-- session_pool.go, used by several goroutines at once: `GetSession` and `ReturnSession` are cut at
-- the points where another goroutine may run.
use hsm_service.Prelude.{
  ℕ, zero, suc, ◌+◌, ◌≤◌, ◌<◌, ◌≡◌, refl, String, true, some, List, [], ◌∷◌, ◌++◌, length,
  length-append, arith, inl, inr,
}
use hsm_service.Domain.Errors.{GoError}
use hsm_service.Exec.{ok, returned, failed, Outcome-cases}
use hsm_service.Hsm.Pool.{
  Token, Semaphore, Pool, create_session, put_session, return_session, new_pool, prewarm, warmed,
  unwarmed, min,
}
use hsm_service.Hsm.Pool.Laws.{SemaphoreLaws}

-- The pool and how many goroutines are where: with a permit before the select, creating a session,
-- holding a session, about to release. `leaked` counts the permits that no goroutine has.
pub record Shared (W S : Type 0) : Type 0 where
  pub pool : Pool W S
  pub waiting : ℕ
  pub creating : ℕ
  pub lent : ℕ
  pub releasing : ℕ
  pub leaked : ℕ

module _ {W S : Type 0} (T : Token W) (L : Semaphore S) where
  pub data Step : Shared W S → Shared W S → Type 0 where
    acquired :
        (x : Shared W S) (s : S)
        → L.acquire x.pool.sem ≡ ok s
        → Step x (record x { pool = record x.pool { sem = s }; waiting = suc x.waiting })
    took :
        (x : Shared W S) (n session : ℕ) (rest : List ℕ)
        → x.waiting ≡ suc n
        → x.pool.sessions ≡ session ∷ rest
        → Step x
            (record x { pool = record x.pool { sessions = rest }; waiting = n; lent = suc x.lent })
    gave_up :
        (x : Shared W S) (n : ℕ)
        → x.waiting ≡ suc n
        → Step x (record x { waiting = n; releasing = suc x.releasing })
    began :
        (x : Shared W S) (n : ℕ)
        → x.waiting ≡ suc n
        → x.pool.sessions ≡ []
        → Step x (record x { waiting = n; creating = suc x.creating })
    created :
        (x : Shared W S) (n session : ℕ)
        → x.creating ≡ suc n
        → (create_session T L x.pool).0 ≡ returned session
        → Step x
            (record x { pool = (create_session T L x.pool).1; creating = n; lent = suc x.lent })
    not_created :
        (x : Shared W S) (n : ℕ) (e : GoError)
        → x.creating ≡ suc n
        → (create_session T L x.pool).0 ≡ failed e
        → Step x
            (record x { pool = (create_session T L x.pool).1; creating = n; leaked = suc x.leaked })
    gave_back :
        (x : Shared W S) (n session : ℕ)
        → x.lent ≡ suc n
        → Step x (record x {
          pool = put_session T L session x.pool;
          lent = n;
          releasing = suc x.releasing;
        })
    released_one :
        (x : Shared W S) (n : ℕ) (s : S)
        → x.releasing ≡ suc n
        → L.release x.pool.sem ≡ some s
        → Step x (record x { pool = record x.pool { sem = s }; releasing = n })

  -- What can be reached from the pool that `NewSessionPool` makes.
  pub data Reachable : Shared W S → Type 0 where
    start :
        (slot : ℕ) (pin : String) (max_sessions : ℕ) (e : W)
        → Reachable record {
          pool = new_pool T L slot pin max_sessions e;
          waiting = 0;
          creating = 0;
          lent = 0;
          releasing = 0;
          leaked = 0;
        }
    next : (x y : Shared W S) → Reachable x → Step x y → Reachable y

module _ {W S : Type 0} (T : Token W) (L : Semaphore S) (Law : SemaphoreLaws L) where
  -- Every permit is free, held or leaked, and there are at most as many sessions, idle, lent and
  -- being made, as permits.
  pub record IsSound (x : Shared W S) : Type 0 where
    pub size_is : Law.size x.pool.sem ≡ x.pool.max_sessions
    pub permits :
        Law.free x.pool.sem + x.waiting + x.creating + x.lent + x.releasing + x.leaked
        ≡ x.pool.max_sessions
    pub sessions : length x.pool.sessions + x.lent + x.creating ≤ x.pool.max_sessions

  create_session_same :
      (p : Pool W S)
      → let q = (create_session T L p).1 in
        (q.sessions ≡ p.sessions) × (q.sem ≡ p.sem) × (q.max_sessions ≡ p.max_sessions)
  unfolding create_session
  create_session_same p = (ground arith, ground arith, ground arith)

  put_session_same :
      (session : ℕ) (p : Pool W S)
      → let q = put_session T L session p in
        (q.sem ≡ p.sem)
        × (q.max_sessions ≡ p.max_sessions)
        × (length q.sessions ≤ suc (length p.sessions))
  unfolding put_session
  put_session_same session p =
      (ground arith, ground arith, ground (arith, length-append p.sessions (session ∷ [])))

  Step-IsSound : (x y : Shared W S) → Step T L x y → IsSound x → IsSound y
  Step-IsSound _ _ (acquired x s a) i =
      let f = Law.acquire_free x.pool.sem s a in
      let z = Law.acquire_size x.pool.sem s a in
      record {
        size_is = omega (arith, z, i.size_is);
        permits = omega (arith, f, i.permits);
        sessions = i.sessions;
      }
  Step-IsSound _ _ (took x n session rest w s) i = record {
    size_is = i.size_is;
    permits = omega (arith, i.permits, w);
    sessions = ground (arith, i.sessions, s);
  }
  Step-IsSound _ _ (gave_up x n w) i = record {
    size_is = i.size_is;
    permits = omega (arith, i.permits, w);
    sessions = i.sessions;
  }
  Step-IsSound _ _ (began x n w s) i = record {
    size_is = i.size_is;
    permits = omega (arith, i.permits, w);
    sessions = ground (arith, i.permits, w, s);
  }
  Step-IsSound _ _ (created x n session c r) i =
      let (q1, q2, q3) = create_session_same x.pool in
      record {
        size_is = ground (arith, i.size_is, q2, q3);
        permits = ground (arith, i.permits, c, q2, q3);
        sessions = ground (arith, i.sessions, c, q1, q3);
      }
  Step-IsSound _ _ (not_created x n e c r) i =
      let (q1, q2, q3) = create_session_same x.pool in
      record {
        size_is = ground (arith, i.size_is, q2, q3);
        permits = ground (arith, i.permits, c, q2, q3);
        sessions = ground (arith, i.sessions, c, q1, q3);
      }
  Step-IsSound _ _ (gave_back x n session l) i =
      let (q1, q2, q3) = put_session_same session x.pool in
      record {
        size_is = ground (arith, i.size_is, q1, q2);
        permits = ground (arith, i.permits, l, q1, q2);
        sessions = omega (arith, i.sessions, l, q3, q2);
      }
  Step-IsSound _ _ (released_one x n s r a) i =
      let f = Law.release_free x.pool.sem s a in
      let z = Law.release_size x.pool.sem s a in
      record {
        size_is = omega (arith, z, i.size_is);
        permits = omega (arith, f, i.permits, r);
        sessions = i.sessions;
      }

  prewarm_same :
      (n : ℕ) (p : Pool W S)
      → let q = prewarm T L n p in
        (q.sem ≡ p.sem)
        × (q.max_sessions ≡ p.max_sessions)
        × (length q.sessions ≤ length p.sessions + n)
  unfolding prewarm warmed
  prewarm_same zero p = (refl, refl, omega arith)
  prewarm_same (suc n) p =
      let r = create_session T L p in
      let (q1, q2, q3) = create_session_same p in
      let (h1, h2, h3) = prewarm_same n (warmed T L r) in
      elim (Outcome-cases r.0) [
        | inl (session, e) ↦ (
          ground (arith, h1, q2),
          ground (arith, h2, q3),
          ground (arith, h3, q1, length-append p.sessions (session ∷ [])),
        )
        | inr (inl (x, e)) ↦
            (ground (arith, h1, q2), ground (arith, h2, q3), ground (arith, h3, q1))
        | inr (inr e) ↦ (ground (arith, h1, q2), ground (arith, h2, q3), ground (arith, h3, q1))
      ]

  min_le : (n : ℕ) → min 2 n ≤ n
  unfolding min
  min_le n = ground arith

  -- However goroutines interleave, every permit is free, held by one of them or leaked, and there
  -- are never more sessions, idle, lent and being made, than permits.
  pub Reachable-IsSound : (x : Shared W S) → Reachable T L x → IsSound x
  unfolding new_pool
  Reachable-IsSound _ (start slot pin max_sessions e) =
      let (h1, h2, h3) = prewarm_same (min 2 max_sessions) (unwarmed T L slot pin max_sessions e) in
      record {
        size_is = ground (arith, h1, h2, Law.new_size max_sessions);
        permits = ground (arith, h1, h2, Law.new_free max_sessions);
        sessions = omega (arith, h3, h2, min_le max_sessions);
      }
  Reachable-IsSound _ (next x y r s) = Step-IsSound x y s (Reachable-IsSound x r)

  -- A goroutine that holds a session can always give it back: there is room in the channel, so that
  -- the session is kept and not closed, and the release does not panic.
  pub return_session-Reachable :
      (x : Shared W S) (n session : ℕ)
      → Reachable T L x
      → x.lent ≡ suc n
      → x.pool.initialized ≡ true
      → (s : S) × (L.release x.pool.sem ≡ some s)
        × (return_session T L session x.pool ≡ (
          returned tt,
          record x.pool { sessions = x.pool.sessions ++ (session ∷ []); sem = s },
        ))
  unfolding return_session
  return_session-Reachable x n session r l t =
      let i = Reachable-IsSound x r in
      let (s, a) = Law.release_some x.pool.sem (omega (arith, i.permits, i.size_is, l)) in
      let room : length x.pool.sessions < x.pool.max_sessions = omega (arith, i.sessions, l) in
      (s, a, ground (arith, t, a, room))
