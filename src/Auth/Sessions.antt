-- ===== src/Auth/Sessions.antt =====
-- internal/service/session_service.go, over pkg/redis and
-- internal/repository/session_repository.go. `GetSession` and `DeleteSession` call each other: the
-- recursion is on fuel, and Auth/Recursion.antt says how much is enough.
use Prim.Native.String
use client_server_with_lb_de.Base.{
  ℕ, zero, suc, String, List, [], ◌∷◌, true, false, Option, none, some, ◌+◌, ltb,
}
use client_server_with_lb_de.Auth.{User, Session, unfinished}
use client_server_with_lb_de.Auth.World.{
  System, session_key, user_sessions_key, random_token, set_session, get_value, delete_key, set_add,
  set_remove, set_expiration, set_members, insert_session, delete_session_row, delete_user_rows,
  select_by_id,
}
use client_server_with_lb_de.Auth.Program.{
  Program, ◌>>=◌, ◌>>◌, return, fail, wrap, attempt, ignoring, now,
}

-- `fmt.Errorf("<text>: %w", err)`.
abbrev pub because : String → String → String
because text e = String.◌++◌ text (String.◌++◌ ": " e)

-- A value that must be there: `redis.Nil` and `pgx.ErrNoRows` are errors.
abbrev pub or_fail : {A W : Type 0} → String → Option A → Program W A
or_fail message none = fail message
or_fail message (some a) = return a

module _ (sys : System) where
  open sys use {World, command}

  -- Client.Get.
  abbrev pub redis_get : String → Program World Session
  redis_get token = command (get_value token) >>= or_fail "key not found"

  -- UserRepository.GetUserByID.
  abbrev pub get_user_by_id : String → Program World User
  get_user_by_id id =
      wrap (because "failed to get user") (command (select_by_id id)) >>= or_fail "user not found"

  -- `DeleteSession` once `GetSession` has returned.
  abbrev pub delete_found : String → Option Session → Program World (Unit {0})
  delete_found token none = do
    ignoring (command (delete_key (session_key token)))
    ignoring (command (delete_session_row token))
  delete_found token (some session) = do
    ignoring (command (delete_key (session_key token)))
    ignoring (command (set_remove session.user_id token))
    ignoring (command (delete_session_row token))

  -- The end of `GetSession`: the check of the expiry. `DeleteSession` calls `again`, that is
  -- `GetSession` once more.
  abbrev pub check_expiry : Program World Session → String → Session → ℕ → Program World Session
  check_expiry again token session time = elim (ltb session.expires_at time) [
    | true ↦ do found ← attempt again; delete_found token found; fail "session expired"
    | false ↦ return session
  ]

  -- `GetSession`.
  unfoldable pub get_session : ℕ → String → Program World Session
  get_session zero token w = (unfinished, w)
  get_session (suc n) token w =
      (do
        session ← wrap (λ _. "session not found or expired") (redis_get token)
        time ← now sys
        check_expiry (get_session n token) token session time)
        w

  -- `DeleteSession`.
  unfoldable pub delete_session : ℕ → String → Program World (Unit {0})
  delete_session n token = attempt (get_session n token) >>= delete_found token

module _ (sys : System) (session_ttl : ℕ) where
  open sys use {World, command}

  -- The session that `CreateSession` makes.
  abbrev pub new_session : String → User → ℕ → ℕ → Session
  new_session token user time created = record {
    token = token;
    user_id = user.id;
    username = user.username;
    email = user.email;
    expires_at = time + session_ttl;
    created_at = created;
  }

  -- `CreateSession` from the storing in Redis on.
  abbrev pub store_session : Session → Program World Session
  store_session session = do
    wrap (because "failed to store session in Redis")
        (command (set_session session.token session session_ttl))
    wrap (because "failed to add session to user set")
        (command (set_add session.user_id session.token))
    ignoring (command (set_expiration session.user_id session_ttl))
    created ← now sys
    ignoring (command (insert_session session.user_id session.token session.expires_at created))
    return session

  -- `CreateSession`.
  unfoldable pub create_session : User → Program World Session
  create_session user = do
    token ← wrap (because "failed to generate token") (command random_token)
    time ← now sys
    created ← now sys
    store_session (new_session token user time created)

  -- `RefreshSession`.
  unfoldable pub refresh_session : ℕ → String → Program World Session
  refresh_session n token = do
    session ← get_session sys n token
    user ← wrap (because "user not found") (get_user_by_id sys session.user_id)
    ignoring (delete_session sys n token)
    create_session user

  -- The loop of `DeleteUserSessions`.
  unfoldable pub delete_tokens : List String → Program World (Unit {0})
  delete_tokens [] = return tt
  delete_tokens (token ∷ tokens) = do
    ignoring (command (delete_key (session_key token)))
    ignoring (command (delete_session_row token))
    delete_tokens tokens

  abbrev pub or_empty : Option (List String) → List String
  or_empty none = []
  or_empty (some tokens) = tokens

  -- `DeleteUserSessions`.
  unfoldable pub delete_user_sessions : String → Program World (Unit {0})
  delete_user_sessions user_id = do
    tokens ← attempt (command (set_members user_id))
    delete_tokens (or_empty tokens)
    ignoring (command (delete_key (user_sessions_key user_id)))
    ignoring (command (delete_user_rows user_id))
