-- ===== src/Auth/Isolation.antt =====
-- What the functions of internal/service/auth_service.go keep.
use Prim.Native.String.{len}
use client_server_with_lb_de.Base.{
  ℕ, String, Bool, true, false, none, ◌==◌, ltb, ◌≡◌, sym, subst, inl, inr, Bool-cases,
}
use client_server_with_lb_de.Auth.{User, Session}
use client_server_with_lb_de.Auth.World.{
  System, Stores, random_token, new_uuid, hash_password, set_session, set_add, set_expiration,
  insert_session, user_exists, insert_user, select_by_username,
}
use client_server_with_lb_de.Auth.Program.{return, wrap, ignoring, now}
use client_server_with_lb_de.Auth.Sessions.{
  because, get_user_by_id, get_session, delete_session, new_session, store_session, create_session,
  refresh_session,
}
use client_server_with_lb_de.Auth.Service.{
  refuse_if, create_user, get_user_by_username, register, verify_password, login, logout,
  validate_token,
}
use client_server_with_lb_de.Auth.Contracts.{
  Ends, bind-Ends, wrap-Ends, command-Ends_so, Same, now-Ends, Ends-imp,
}
use client_server_with_lb_de.Auth.Keeping.{
  Keeps, Bears, bind-Keeps, wrap-Keeps, return-Keeps, fail-Keeps, ignoring-Keeps, or_fail-Keeps,
  command-Keeps, now-Keeps, get_session-Keeps, delete_session-Keeps, get_user_by_id-Keeps,
}

module _ (sys : System) (I : Stores → Type 0) (token : String) (bears : Bears sys I token) where
  open sys use {World, stores, clock, matches, command}

  -- `I`, and the token of a session to be is unused.
  abbrev Unused : String → Stores → Type 0
  Unused new s = I s × (s.sessions new ≡ none)

  abbrev Holding : World → Type 0
  Holding w = I (stores w)

  stored-Keeps :
      (session_ttl : ℕ) (session : Session) (w : World)
      → Unused session.token (stores w)
      → Ends sys (λ _. Holding) Holding (store_session sys session_ttl session w)
  stored-Keeps session_ttl session w (i, unused) =
      bind-Ends sys (λ _. Holding) (λ _. Holding) Holding
        (wrap (because "failed to store session in Redis")
          (command (set_session session.token session session_ttl)))
        _ w
        (wrap-Ends sys (λ _. Holding) Holding _
          (command (set_session session.token session session_ttl)) w
          (command-Ends_so sys (set_session session.token session session_ttl) w (λ _. Holding)
            Holding
            (λ _ u done.
              subst I (sym done.changed)
                (bears.addition (stores w) session.token session session_ttl (clock u) unused i))
            (λ u kept. subst I (sym kept.same) i)))
        (λ _.
          (bind-Keeps sys I
            (wrap (because "failed to add session to user set")
              (command (set_add session.user_id session.token)))
            _
            (wrap-Keeps sys I _ _
              (command-Keeps sys I (set_add session.user_id session.token) (λ _ _ _ _ j. j)))
            (λ _.
              bind-Keeps sys I (ignoring (command (set_expiration session.user_id session_ttl))) _
                (ignoring-Keeps sys I _ (
                  command-Keeps sys I (set_expiration session.user_id session_ttl)
                    (λ _ _ _ _ j. j)))
                (λ _. bind-Keeps sys I (now sys) _ (now-Keeps sys I) (λ created.
                  bind-Keeps sys I
                    (ignoring (
                      command
                        (insert_session session.user_id session.token session.expires_at created)))
                    (λ _. return session)
                    (ignoring-Keeps sys I _ (
                      command-Keeps sys I
                        (insert_session session.user_id session.token session.expires_at created)
                        (λ s _ _ _. bears.rows s _)))
                    (λ _. return-Keeps sys I session))))).at)

  create_session-Keeps :
      (session_ttl : ℕ) (user : User) → Keeps sys I (create_session sys session_ttl user)
  unfolding create_session
  create_session-Keeps session_ttl user = record {
    at = λ w i.
        bind-Ends sys (λ new u. Unused new (stores u)) (λ _. Holding) Holding
          (wrap (because "failed to generate token") (command random_token)) _ w
          (wrap-Ends sys (λ new u. Unused new (stores u)) Holding _ (command random_token) w
            (command-Ends_so sys random_token w (λ new u. Unused new (stores u)) Holding
              (λ new u done. subst (Unused new) (sym done.changed) (i, done.says.0))
              (λ u kept. subst I (sym kept.same) i)))
          (λ new u unused.
            bind-Ends sys (λ _ v. Unused new (stores v)) (λ _. Holding) Holding (now sys) _ u
              (looking new u unused)
              (λ time v unused.
                bind-Ends sys (λ _ x. Unused new (stores x)) (λ _. Holding) Holding (now sys) _ v
                  (looking new v unused)
                  (λ created x unused.
                    stored-Keeps session_ttl (new_session sys session_ttl new user time created) x
                      unused)));
  }
    where
      looking :
          (new : String) (u : World)
          → Unused new (stores u)
          → Ends sys (λ _ v. Unused new (stores v)) Holding (now sys u)
      looking new u unused =
          Ends-imp sys (λ time v. (time ≡ clock v) × Same sys u v) (λ _ v. Unused new (stores v))
            Holding Holding (now sys u) (now-Ends sys u Holding)
            (λ _ v (_, same). subst (Unused new) (sym same.same) unused) (λ _ j. j)

  refuse_if-Keeps : (test : Bool) (message : String) → Keeps sys I (refuse_if test message)
  refuse_if-Keeps true message = fail-Keeps sys I message
  refuse_if-Keeps false message = return-Keeps sys I tt

  create_user-Keeps :
      (username email password_hash : String)
      → Keeps sys I (create_user sys username email password_hash)
  unfolding create_user
  create_user-Keeps username email password_hash =
      bind-Keeps sys I (command new_uuid) _ (command-Keeps sys I new_uuid (λ _ _ _ _ i. i)) (λ id.
        bind-Keeps sys I (now sys) _ (now-Keeps sys I) (λ _.
          let user : User = record {
            id = id;
            username = username;
            email = email;
            password_hash = password_hash;
          } in
          wrap-Keeps sys I (because "failed to create user") (command (insert_user user)) (
            command-Keeps sys I (insert_user user)
              (λ s _ _ says. bears.user_addition s user says.1))))

  pub register-Keeps :
      (username email password : String) → Keeps sys I (register sys username email password)
  unfolding register
  register-Keeps username email password =
      bind-Keeps sys I _ _ (refuse_if-Keeps (username == "") "username is required") (λ _.
        bind-Keeps sys I _ _ (refuse_if-Keeps (email == "") "email is required") (λ _.
          bind-Keeps sys I _ _ (refuse_if-Keeps (password == "") "password is required") (λ _.
            bind-Keeps sys I _ _
              (refuse_if-Keeps (ltb (len password) 6) "password must be at least 6 characters")
              (λ _.
                bind-Keeps sys I
                  (wrap checking (wrap checking (command (user_exists username email)))) _
                  (wrap-Keeps sys I _ _ (
                    wrap-Keeps sys I _ _
                      (command-Keeps sys I (user_exists username email) (λ _ _ _ _ i. i))))
                  (λ exists.
                    bind-Keeps sys I _ _ (refuse_if-Keeps exists "username or email already exists")
                      (λ _.
                        bind-Keeps sys I
                          (wrap (because "failed to hash password")
                            (command (hash_password password)))
                          _
                          (wrap-Keeps sys I _ _
                            (command-Keeps sys I (hash_password password) (λ _ _ _ _ i. i)))
                          (λ hash. create_user-Keeps username email hash)))))))
    where
      checking : String → String
      checking = because "failed to check user existence"

  verify_password-Keeps :
      (user : User) (password : String) → Keeps sys I (verify_password sys user password)
  verify_password-Keeps user password =
      elim (Bool-cases (matches user.password_hash password))
        as (λ _. Keeps sys I (verify_password sys user password)) [
          | inl same ↦ rw same (return-Keeps sys I tt)
          | inr wrong ↦ rw wrong (fail-Keeps sys I "invalid username or password")
        ]

  pub login-Keeps :
      (session_ttl : ℕ) (username password : String)
      → Keeps sys I (login sys session_ttl username password)
  unfolding login
  login-Keeps session_ttl username password =
      bind-Keeps sys I _ _ (refuse_if-Keeps (username == "") "username is required") (λ _.
        bind-Keeps sys I _ _ (refuse_if-Keeps (password == "") "password is required") (λ _.
          bind-Keeps sys I
            (wrap (λ _. "invalid username or password") (get_user_by_username sys username)) _
            (wrap-Keeps sys I _ _ (
              bind-Keeps sys I _ _
                (wrap-Keeps sys I _ _
                  (command-Keeps sys I (select_by_username username) (λ _ _ _ _ i. i)))
                (or_fail-Keeps sys I "user not found")))
            (λ user.
              bind-Keeps sys I _ _ (verify_password-Keeps user password)
                (λ _. wrap-Keeps sys I _ _ (create_session-Keeps session_ttl user)))))

  pub logout-Keeps : (n : ℕ) → Keeps sys I (logout sys n token)
  unfolding logout
  logout-Keeps n =
      bind-Keeps sys I _ _ (refuse_if-Keeps (token == "") "token is required")
        (λ _. delete_session-Keeps sys I token bears n)

  pub validate_token-Keeps : (n : ℕ) → Keeps sys I (validate_token sys n token)
  unfolding validate_token
  validate_token-Keeps n =
      bind-Keeps sys I _ _ (refuse_if-Keeps (token == "") "token is required") (λ _.
        bind-Keeps sys I (wrap (λ _. "invalid or expired token") (get_session sys n token)) _
          (wrap-Keeps sys I _ _ (get_session-Keeps sys I token bears n))
          (λ s.
            wrap-Keeps sys I (because "user not found") _
              (get_user_by_id-Keeps sys I token bears s.user_id)))

  pub refresh_session-Keeps :
      (session_ttl n : ℕ) → Keeps sys I (refresh_session sys session_ttl n token)
  unfolding refresh_session
  refresh_session-Keeps session_ttl n =
      bind-Keeps sys I (get_session sys n token) _ (get_session-Keeps sys I token bears n) (λ s.
        bind-Keeps sys I (wrap (because "user not found") (get_user_by_id sys s.user_id)) _
          (wrap-Keeps sys I _ _ (get_user_by_id-Keeps sys I token bears s.user_id))
          (λ user.
            bind-Keeps sys I (ignoring (delete_session sys n token)) _
              (ignoring-Keeps sys I _ (delete_session-Keeps sys I token bears n))
              (λ _. create_session-Keeps session_ttl user)))
