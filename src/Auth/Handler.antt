-- ===== src/Auth/Handler.antt =====
-- internal/handler/auth_handler.go and the constructors of pkg/protocol/message.go. Marshalling
-- the data of a response does not fail.
use Prim.Native.String
use client_server_with_lb_de.Base.{ℕ, String, Bool, true, false, ◌/◌, ◌==◌, ◌||◌, if◌then◌else◌}
use client_server_with_lb_de.Auth.{
  User, Session, AuthRequest, AuthResponse, success, failure, AuthData, login_data, register_data,
  validate_data, message_data, Outcome, ok, err, unfinished,
}
use client_server_with_lb_de.Auth.World.{System}
use client_server_with_lb_de.Auth.Program.{Program, ◌>>=◌, return, wrap}
use client_server_with_lb_de.Auth.Sessions.{refresh_session}
use client_server_with_lb_de.Auth.Service.{register, login, logout, validate_token}

-- `t.Unix()`, of nanoseconds.
abbrev pub unix : ℕ → ℕ
unix t = t / 1000000000

abbrev pub login_response : Session → AuthData
login_response session = login_data (record {
  token = session.token;
  user_id = session.user_id;
  username = session.username;
  email = session.email;
  expires_at = unix session.expires_at;
})

abbrev pub register_response : User → AuthData
register_response user =
    register_data (record { user_id = user.id; username = user.username; email = user.email })

abbrev pub valid_response : User → AuthData
valid_response user =
    validate_data
      (record { valid = true; user_id = user.id; username = user.username; email = user.email })

abbrev pub invalid_response : AuthData
invalid_response = validate_data (record { valid = false; user_id = ""; username = ""; email = "" })

-- The response of a handler, by what its call returned: a handler returns no error of its own.
abbrev pub respond :
    {A W : Type 0}
    → (A → AuthResponse)
    → (String → AuthResponse)
    → Outcome A × W
    → Outcome AuthResponse × W
respond good bad (ok a, w) = (ok (good a), w)
respond good bad (err e, w) = (ok (bad e), w)
respond good bad (unfinished, w) = (unfinished, w)

abbrev pub or_respond :
    {A W : Type 0}
    → Program W A
    → (A → AuthResponse)
    → (String → AuthResponse)
    → Program W AuthResponse
or_respond m good bad w = respond good bad (m w)

-- A handler's own check of its fields.
abbrev pub unless_missing :
    {W : Type 0} → Bool → String → Program W AuthResponse → Program W AuthResponse
unless_missing true message k = return (failure message)
unless_missing false message k = k

module _ (sys : System) (session_ttl n : ℕ) where
  open sys use {World}

  unfoldable pub handle_register : AuthRequest → Program World AuthResponse
  handle_register r =
      unless_missing (r.username == "" || r.email == "" || r.password == "")
        "username, email, and password are required"
        (or_respond (register sys r.username r.email r.password)
          (λ user. success (register_response user)) failure)

  unfoldable pub handle_login : AuthRequest → Program World AuthResponse
  handle_login r =
      unless_missing (r.username == "" || r.password == "") "username and password are required" (
        or_respond (login sys session_ttl r.username r.password)
          (λ session. success (login_response session)) failure)

  unfoldable pub handle_logout : AuthRequest → Program World AuthResponse
  handle_logout r = unless_missing (r.token == "") "token is required" (
      or_respond (logout sys n r.token) (λ _. success (message_data "logged out successfully"))
        failure)

  unfoldable pub handle_validate : AuthRequest → Program World AuthResponse
  handle_validate r = unless_missing (r.token == "") "token is required" (
      or_respond (validate_token sys n r.token) (λ user. success (valid_response user))
        (λ _. success invalid_response))

  -- `handleRefresh`'s two calls: the error of the first gets a text of its own.
  abbrev pub refreshed : AuthRequest → Program World Session
  refreshed r = wrap (λ _. "invalid or expired token") (validate_token sys n r.token) >>= λ _.
      refresh_session sys session_ttl n r.token

  unfoldable pub handle_refresh : AuthRequest → Program World AuthResponse
  handle_refresh r =
      unless_missing (r.token == "") "token is required"
        (or_respond (refreshed r) (λ session. success (login_response session)) failure)

  -- `HandleRequest`.
  unfoldable pub handle_request : AuthRequest → Program World AuthResponse
  unfolding handle_register handle_login handle_logout handle_validate handle_refresh
  handle_request r =
      if r.kind == "register"
      then handle_register r
      else if r.kind == "login"
      then handle_login r
      else if r.kind == "logout"
      then handle_logout r
      else if r.kind == "validate"
      then handle_validate r
      else if r.kind == "refresh"
      then handle_refresh r
      else return (failure (String.◌++◌ "unknown request type: " r.kind))
