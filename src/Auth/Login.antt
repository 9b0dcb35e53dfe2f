-- ===== src/Auth/Login.antt =====
-- What `Login` and `handleLogin`, `handleValidate` of internal/service/auth_service.go and
-- internal/handler/auth_handler.go have done when they respond.
use client_server_with_lb_de.Base.{
  ℕ, String, true, false, some, ◌+◌, ◌≤◌, ◌==◌, ◌||◌, ◌≡◌, ◌⊎◌, refl, arith, inl, inr, Bool-cases,
  subst, sym, ◌∙◌, ap,
}
use client_server_with_lb_de.Auth.{
  User, Session, AuthRequest, AuthResponse, success, failure, AuthData, validate_data,
  ValidateResponseData, ok,
}
use client_server_with_lb_de.Auth.World.{System, update, drop_time, IsNamed, select_by_username}
use client_server_with_lb_de.Auth.Program.{Program, ◌>>=◌, wrap}
use client_server_with_lb_de.Auth.Sessions.{because, create_session}
use client_server_with_lb_de.Auth.Service.{
  get_user_by_username, verify_password, login, validate_token,
}
use client_server_with_lb_de.Auth.Handler.{
  login_response, valid_response, invalid_response, handle_login, handle_validate,
}
use client_server_with_lb_de.Auth.Contracts.{
  Ends, bind-Ends, wrap-Ends, command-Answers, Answered, Same, Anything, or_fail-Ends,
  refusing-Ends, Ends-imp, Ends-value,
}
use client_server_with_lb_de.Auth.Responding.{or_respond-Ends, unless_missing-Ends}
use client_server_with_lb_de.Auth.Creation.{Created, create_session-Ends}
use client_server_with_lb_de.Auth.Reading.{Validated, validate_token-Ends}

module _ (sys : System) where
  open sys use {World, stores, clock, matches, command}

  verifying-Ends :
      {A : Type 0} (Q : A → World → Type 0) (user : User) (password : String)
      (f : Unit {0} → Program World A) (w : World)
      → (matches user.password_hash password ≡ true → Ends sys Q (Anything sys) (f tt w))
      → Ends sys Q (Anything sys) ((verify_password sys user password >>= f) w)
  verifying-Ends Q user password f w next =
      elim (Bool-cases (matches user.password_hash password))
        as (λ _. Ends sys Q (Anything sys) ((verify_password sys user password >>= f) w)) [
          | inl same ↦ rw same (next same)
          | inr wrong ↦ rw wrong (record { post = tt })
        ]

  -- The row of a username.
  get_user_by_username-Ends :
      (username : String) (w : World)
      → Ends sys
          (λ user u.
            ((stores w).users user.id ≡ some user) × (user.username ≡ username) × Same sys w u)
          (Anything sys)
          (get_user_by_username sys username w)
  get_user_by_username-Ends username w =
      bind-Ends sys (Answered sys (select_by_username username) w) _ (Anything sys)
        (wrap (because "failed to get user") (command (select_by_username username))) _ w
        (wrap-Ends sys (Answered sys (select_by_username username) w) (Anything sys) _
          (command (select_by_username username)) w
          (command-Answers sys (select_by_username username) w))
        (λ row u h. or_fail-Ends sys _ "user not found" row u (λ user is.
          let (held, named) : IsNamed (stores w) username (some user) =
            subst (IsNamed (stores w) username) is h.says in
          (held, named, record { same = h.changed; later = h.later })))

  module _ (session_ttl n : ℕ) where
    -- A login under a username and a password: of a stored user with the name, whose hash
    -- matches the password, with a new session.
    pub record LoggedIn (username password : String) (w : World) (session : Session) (w' : World)
        : Type 0 where
      pub user : User
      pub is_stored : (stores w).users user.id ≡ some user
      pub is_named : user.username ≡ username
      pub verified : matches user.password_hash password ≡ true
      pub created : Created sys session_ttl user w session w'

    Created-from :
        (user : User) (session : Session) (w u v : World)
        → Same sys w u
        → Created sys session_ttl user u session v
        → Created sys session_ttl user w session v
    Created-from user session w u v same c =
        let from_w : clock w ≤ clock u = same.later in
        let lasts : clock u + session_ttl ≤ session.expires_at = c.lasts in
        record {
          of_user = c.of_user;
          drawn = c.drawn;
          unused = ap (λ st. st.sessions session.token) (sym same.same) ∙ c.unused;
          filled = c.filled;
          lasts = omega arith;
          time = c.time;
          since = let at : clock u ≤ c.time = c.since in omega arith;
          until = c.until;
          kept_longer = c.kept_longer;
          sessions =
              c.sessions
              ∙ ap
                  (λ st.
                    update st.sessions session.token (
                      some (record { session = session; drops_at = drop_time c.time session_ttl })))
                  same.same;
          users = c.users ∙ ap (λ st. st.users) same.same;
        }

    -- `Login`, when it returns a session.
    login-Ends :
        (username password : String) (w : World)
        → Ends sys
            (LoggedIn username password w)
            (Anything sys)
            (login sys session_ttl username password w)
    unfolding login
    login-Ends username password w =
        refusing-Ends sys (LoggedIn username password w) (username == "") "username is required" _ w
          (λ _.
            refusing-Ends sys (LoggedIn username password w) (password == "") "password is required"
              _ w
              (λ _.
                bind-Ends sys
                  (λ user u.
                    ((stores w).users user.id ≡ some user)
                    × (user.username ≡ username)
                    × Same sys w u)
                  _ (Anything sys)
                  (wrap (λ _. "invalid username or password") (get_user_by_username sys username)) _
                  w
                  (wrap-Ends sys
                    (λ user u.
                      ((stores w).users user.id ≡ some user)
                      × (user.username ≡ username)
                      × Same sys w u)
                    (Anything sys) _ (get_user_by_username sys username) w
                    (get_user_by_username-Ends username w))
                  (λ user u (is_stored, is_named, same).
                    verifying-Ends (LoggedIn username password w) user password _ u (λ verified.
                      wrap-Ends sys (LoggedIn username password w) (Anything sys) _
                        (create_session sys session_ttl user) u
                        (Ends-imp sys (Created sys session_ttl user u)
                          (LoggedIn username password w) (Anything sys) (Anything sys)
                          (create_session sys session_ttl user u)
                          (create_session-Ends sys session_ttl user u)
                          (λ session v created. record {
                            user = user;
                            is_stored = is_stored;
                            is_named = is_named;
                            verified = verified;
                            created = Created-from user session w u v same created;
                          })
                          (λ _ h. h))))))

    -- What the response to a login says of the login.
    abbrev pub AfterLogin : AuthRequest → World → AuthResponse → World → Type 0
    AfterLogin r w (success answer) w' =
        (session : Session) × (answer ≡ login_response session)
        × LoggedIn r.username r.password w session w'
    AfterLogin r w (failure e) w' = Unit

    -- `handleLogin`, when it responds.
    pub handle_login-Ends :
        (r : AuthRequest) (w : World)
        → Ends sys (AfterLogin r w) (Anything sys) (handle_login sys session_ttl n r w)
    unfolding handle_login
    handle_login-Ends r w =
        unless_missing-Ends sys (AfterLogin r w) (r.username == "" || r.password == "") _ _ w
          (λ _. tt)
          (or_respond-Ends sys (LoggedIn r.username r.password w) (AfterLogin r w) _ failure
            (login sys session_ttl r.username r.password) w (login-Ends r.username r.password w)
            (λ session w' h. (session, refl, h)) (λ _ _. tt))

  -- What the response to a validation says: of a valid token, that Redis has its session and that
  -- it is not over.
  abbrev AfterValidate : AuthRequest → World → AuthResponse → World → Type 0
  AfterValidate r w (success answer) w' =
      (answer ≡ invalid_response)
      ⊎ ((user : User) × (answer ≡ valid_response user) × Validated sys r.token w user w')
  AfterValidate r w (failure e) w' = (r.token == "") ≡ true

  handle_validate-Ends :
      (session_ttl n : ℕ) (r : AuthRequest) (w : World)
      → Ends sys (AfterValidate r w) (Anything sys) (handle_validate sys session_ttl n r w)
  unfolding handle_validate
  handle_validate-Ends session_ttl n r w =
      unless_missing-Ends sys (AfterValidate r w) (r.token == "") _ _ w (λ missing. missing)
        (or_respond-Ends sys (Validated sys r.token w) (AfterValidate r w) _
          (λ _. success invalid_response) (validate_token sys n r.token) w
          (validate_token-Ends sys n r.token w) (λ user w' h. inr (user, refl, h))
          (λ _ _. inl refl))

  -- A login that responds with success has found a stored user with the request's name whose hash
  -- the password matches, and has put exactly one session into Redis, under a token that no session
  -- had, that is the response's: with the user's data, and with an expiry at least the time to live
  -- away. The other sessions and the users are as they were.
  pub handle_login-success :
      (session_ttl n : ℕ) (r : AuthRequest) (w w' : World) (answer : AuthData)
      → handle_login sys session_ttl n r w ≡ (ok (success answer), w')
      → (session : Session) × (answer ≡ login_response session)
        × LoggedIn session_ttl n r.username r.password w session w'
  handle_login-success session_ttl n r w w' answer run =
      Ends-value sys (AfterLogin session_ttl n r w) (Anything sys)
        (handle_login sys session_ttl n r w) (success answer) w'
        (handle_login-Ends session_ttl n r w) run

  -- A validation that responds with a valid token has changed nothing, and the token is not empty:
  -- Redis holds a session under it that is not over at the time of the request, and the response is
  -- of the stored user of that session.
  pub handle_validate-valid :
      (session_ttl n : ℕ) (r : AuthRequest) (w w' : World) (d : ValidateResponseData)
      → handle_validate sys session_ttl n r w ≡ (ok (success (validate_data d)), w')
      → d.valid ≡ true
      → (user : User) × (validate_data d ≡ valid_response user) × Validated sys r.token w user w'
  handle_validate-valid session_ttl n r w w' d run valid =
      elim (Ends-value sys (AfterValidate r w) (Anything sys)
        (handle_validate sys session_ttl n r w) (success (validate_data d)) w'
        (handle_validate-Ends session_ttl n r w) run) [
          | inl invalid ↦ let not_valid : d.valid ≡ false = ground arith in absurd ground arith
          | inr found ↦ found
        ]
