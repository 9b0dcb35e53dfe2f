-- ===== src/Auth/Service.antt =====
-- internal/service/auth_service.go, over internal/repository/user_repository.go.
use Prim.Native.String.{len}
use client_server_with_lb_de.Base.{ℕ, String, Bool, true, false, ltb, ◌==◌, if◌then◌else◌}
use client_server_with_lb_de.Auth.{User, Session}
use client_server_with_lb_de.Auth.World.{
  System, new_uuid, hash_password, user_exists, insert_user, select_by_username,
}
use client_server_with_lb_de.Auth.Program.{Program, ◌>>=◌, ◌>>◌, return, fail, wrap, now}
use client_server_with_lb_de.Auth.Sessions.{
  because, or_fail, get_user_by_id, get_session, delete_session, create_session,
}

-- A check at the head of a function: `if test { return nil, fmt.Errorf(message) }`.
abbrev pub refuse_if : {W : Type 0} → Bool → String → Program W (Unit {0})
refuse_if true message = fail message
refuse_if false message = return tt

module _ (sys : System) where
  open sys use {World, command, matches}

  -- UserRepository.CreateUser.
  unfoldable pub create_user : String → String → String → Program World User
  create_user username email password_hash = do
    id ← command new_uuid
    _ ← now sys
    wrap (because "failed to create user") (
        command (
          insert_user (record {
            id = id;
            username = username;
            email = email;
            password_hash = password_hash;
          })))

  -- UserRepository.GetUserByUsername.
  abbrev pub get_user_by_username : String → Program World User
  get_user_by_username username =
      wrap (because "failed to get user") (command (select_by_username username))
      >>= or_fail "user not found"

  -- `Register`.
  unfoldable pub register : String → String → String → Program World User
  unfolding create_user
  register username email password = do
    refuse_if (username == "") "username is required"
    refuse_if (email == "") "email is required"
    refuse_if (password == "") "password is required"
    refuse_if (ltb (len password) 6) "password must be at least 6 characters"
    exists ←
        wrap (because "failed to check user existence")
          (wrap (because "failed to check user existence") (command (user_exists username email)))
    refuse_if exists "username or email already exists"
    password_hash ← wrap (because "failed to hash password") (command (hash_password password))
    create_user username email password_hash

  -- `VerifyPassword`, for `Login`.
  abbrev pub verify_password : User → String → Program World (Unit {0})
  verify_password user password =
      if matches user.password_hash password then return tt else fail "invalid username or password"

  -- `Login`.
  unfoldable pub login : ℕ → String → String → Program World Session
  login session_ttl username password = do
    refuse_if (username == "") "username is required"
    refuse_if (password == "") "password is required"
    user ← wrap (λ _. "invalid username or password") (get_user_by_username username)
    verify_password user password
    wrap (because "failed to create session") (create_session sys session_ttl user)

  -- `Logout`.
  unfoldable pub logout : ℕ → String → Program World (Unit {0})
  logout n token = do refuse_if (token == "") "token is required"; delete_session sys n token

  -- `ValidateToken`.
  unfoldable pub validate_token : ℕ → String → Program World User
  validate_token n token = do
    refuse_if (token == "") "token is required"
    session ← wrap (λ _. "invalid or expired token") (get_session sys n token)
    wrap (because "user not found") (get_user_by_id sys session.user_id)
