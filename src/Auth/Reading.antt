-- ===== src/Auth/Reading.antt =====
-- What `GetSession` of internal/service/session_service.go returns.
use client_server_with_lb_de.Base.{
  ℕ, zero, suc, String, false, Option, none, some, ◌≤◌, ltb, ◌==◌, ◌≡◌, inl, inr, refl, sym, ◌∙◌,
  ap, arith, Bool-cases,
}
use client_server_with_lb_de.Auth.{User, Session}
use client_server_with_lb_de.Auth.World.{
  System, Stored, live, kept_session, get_value, select_by_id,
}
use client_server_with_lb_de.Auth.Program.{Program, wrap, attempt, now}
use client_server_with_lb_de.Auth.Service.{validate_token}
use client_server_with_lb_de.Auth.Sessions.{
  because, get_user_by_id, redis_get, check_expiry, get_session, delete_found,
}
use client_server_with_lb_de.Auth.Contracts.{
  Ends, bind-Ends, wrap-Ends, command-Answers, Same-trans, Answered, Same, now-Ends, Anything,
  Ends-Anything, or_fail-Ends, refusing-Ends, Ends-imp,
}

kept_session-eq : (v s : Session) (e : Option ℕ) (time : ℕ) → kept_session v e time ≡ some s → v ≡ s
kept_session-eq v s none time h = ground arith
kept_session-eq v s (some e) time h = ground arith

module _ (sys : System) where
  open sys use {World, stores, clock, command, read_clock}

  -- Redis holds the session under the token, until a time or for ever.
  abbrev pub Holds : World → String → Session → Type 0
  Holds w token session =
      (e : Option ℕ) × ((stores w).sessions token
        ≡ some (record { session = session; drops_at = e }))

  live-Holds :
      (w : World) (token : String) (o : Option Stored) (s : Session) (time : ℕ)
      → (stores w).sessions token ≡ o
      → live o time ≡ some s
      → Holds w token s
  live-Holds w token none s time held h = absurd ground arith
  live-Holds w token (some stored) s time held h = (
    stored.drops_at,
    held
        ∙ ap (λ v. some (record { session = v; drops_at = stored.drops_at }))
            (kept_session-eq stored.session s stored.drops_at time h),
  )

  -- The session is in Redis, nothing has changed, and it has not expired at the end.
  pub record Valid (token : String) (w : World) (session : Session) (w' : World) : Type 0 where
    pub holds : Holds w token session
    pub same : Same sys w w'
    pub in_time : clock w' ≤ session.expires_at

  redis_get-Ends :
      (token : String) (w : World)
      → Ends sys (λ s w'. Holds w token s × Same sys w w') (Anything sys) (redis_get sys token w)
  redis_get-Ends token w =
      bind-Ends sys (Answered sys (get_value token) w) _ (Anything sys) (command (get_value token))
        _ w (command-Answers sys (get_value token) w)
        (λ found u h. or_fail-Ends sys _ "key not found" found u (λ s is. (
          live-Holds w token ((stores w).sessions token) s (clock u) refl (sym h.says ∙ is),
          record { same = h.changed; later = h.later },
        )))

  -- The check of the expiry, after the session was read.
  check_expiry-Ends :
      (again : Program World Session) (token : String) (w v : World) (s : Session) (time : ℕ)
      → Holds w token s
      → Same sys w v
      → time ≡ clock v
      → Ends sys (Valid token w) (Anything sys) (check_expiry sys again token s time v)
  check_expiry-Ends again token w v s time holds to_v is_time =
      elim (Bool-cases (ltb s.expires_at time)) [
        | inl expired ↦
            rw (expired, check_expiry)
              (bind-Ends sys (λ _. Anything sys) _ (Anything sys) (attempt again) _ v
                (Ends-Anything sys (attempt again v))
                (λ found x _.
                  bind-Ends sys (λ _. Anything sys) _ (Anything sys) (delete_found sys token found)
                    _ x (Ends-Anything sys (delete_found sys token found x))
                    (λ _ y _. record { post = tt })))
        | inr valid ↦
            rw (valid, check_expiry)
              (record {
                post = record {
                  holds = holds;
                  same = to_v;
                  in_time = let in_time : clock v ≤ s.expires_at = ground arith in in_time;
                };
              })
      ]

  pub get_session-Ends :
      (n : ℕ) (token : String) (w : World)
      → Ends sys (Valid token w) (Anything sys) (get_session sys n token w)
  unfolding get_session
  get_session-Ends zero token w = record { post = tt }
  get_session-Ends (suc n) token w =
      bind-Ends sys (λ s u. Holds w token s × Same sys w u) _ (Anything sys)
        (wrap (λ _. "session not found or expired") (redis_get sys token)) _ w
        (wrap-Ends sys (λ s u. Holds w token s × Same sys w u) (Anything sys) _
          (redis_get sys token) w (redis_get-Ends token w))
        (λ s u (holds, to_u).
          bind-Ends sys (λ time v. (time ≡ clock v) × Same sys u v) _ (Anything sys) (now sys) _ u
            (now-Ends sys u (Anything sys))
            (λ time v (is_time, to_v).
              check_expiry-Ends (get_session sys n token) token w v s time holds
                (Same-trans sys w u v to_u to_v) is_time))

  -- `GetUserByID`, when it returns a user.
  pub get_user_by_id-Ends :
      (id : String) (w : World)
      → Ends sys
          (λ user w'. ((stores w).users id ≡ some user) × Same sys w w')
          (Anything sys)
          (get_user_by_id sys id w)
  get_user_by_id-Ends id w =
      bind-Ends sys (Answered sys (select_by_id id) w) _ (Anything sys)
        (wrap (because "failed to get user") (command (select_by_id id))) _ w
        (wrap-Ends sys (Answered sys (select_by_id id) w) (Anything sys) _
          (command (select_by_id id)) w (command-Answers sys (select_by_id id) w))
        (λ row u h.
          or_fail-Ends sys _ "user not found" row u
            (λ user is. (sym h.says ∙ is, record { same = h.changed; later = h.later })))

  -- What `ValidateToken` has seen: a session that is not over, and its user, of unchanged stores.
  pub record Validated (token : String) (w : World) (user : User) (w' : World) : Type 0 where
    pub session : Session
    pub holds : Holds w token session
    pub filled : (token == "") ≡ false
    pub in_time : clock w ≤ session.expires_at
    pub of_user : (stores w).users session.user_id ≡ some user
    pub same : Same sys w w'

  -- `ValidateToken`, when it returns a user.
  pub validate_token-Ends :
      (n : ℕ) (token : String) (w : World)
      → Ends sys (Validated token w) (Anything sys) (validate_token sys n token w)
  unfolding validate_token
  validate_token-Ends n token w =
      refusing-Ends sys (Validated token w) (token == "") "token is required" _ w (λ filled.
        bind-Ends sys (Valid token w) _ (Anything sys)
          (wrap (λ _. "invalid or expired token") (get_session sys n token)) _ w
          (wrap-Ends sys (Valid token w) (Anything sys) _ (get_session sys n token) w
            (get_session-Ends n token w))
          (λ s v valid.
            wrap-Ends sys (Validated token w) (Anything sys) _ (get_user_by_id sys s.user_id) v (
              Ends-imp sys (λ user x. ((stores v).users s.user_id ≡ some user) × Same sys v x)
                (Validated token w) (Anything sys) (Anything sys) (get_user_by_id sys s.user_id v)
                (get_user_by_id-Ends s.user_id v)
                (λ user x (found, same).
                  let from_w : clock w ≤ clock v = valid.same.later in
                  let in_time : clock v ≤ s.expires_at = valid.in_time in
                  record {
                    session = s;
                    holds = valid.holds;
                    filled = filled;
                    in_time = omega arith;
                    of_user = ap (λ st. st.users s.user_id) (sym valid.same.same) ∙ found;
                    same = Same-trans sys w v x valid.same same;
                  })
                (λ _ h. h))))
