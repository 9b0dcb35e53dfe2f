-- ===== src/Tests/Auth.antt =====
-- The theorems on tcp-auth-server at concrete requests.
use text.Mathlib.TextEquality.{eq_iff}
use client_server_with_lb_de.Base.{
  ℕ, String, Bool, true, false, List, [], ◌∷◌, if◌then◌else◌, ◌==◌, sym, Option, none, some, ◌≡◌,
  ◌≢◌, refl, arith,
}
use client_server_with_lb_de.Auth.{
  User, Session, AuthRequest, AuthResponse, success, failure, login_data, validate_data,
  LoginResponseData, ValidateResponseData, message_data, ok, unfinished,
}
use client_server_with_lb_de.Auth.World.{Stored}
use client_server_with_lb_de.Auth.Commands.{IsFinished}
use client_server_with_lb_de.Auth.Handler.{
  login_response, register_response, valid_response, invalid_response, handle_register,
  handle_login, handle_logout, handle_validate, handle_request,
}
use client_server_with_lb_de.Auth.Sessions.{create_session, delete_session, get_session}
use client_server_with_lb_de.Auth.Service.{login, logout, register, validate_token, create_user}
use client_server_with_lb_de.Auth.Recursion.{get_session-IsFinished, get_session-unfinished}
use client_server_with_lb_de.Auth.Login.{handle_login-success, handle_validate-valid, LoggedIn}
use client_server_with_lb_de.Auth.Reading.{Validated}
use client_server_with_lb_de.Auth.Registration.{handle_register-success, Registered}
use client_server_with_lb_de.Auth.RoundTrip.{handle_validate-handle_login}
use client_server_with_lb_de.Auth.Logout.{handle_validate-handle_logout}
use client_server_with_lb_de.Auth.Connection.{handle_connection, handle_lines}
use client_server_with_lb_de.Auth.Served.{Served, handle_connection-Served}
use client_server_with_lb_de.Auth.Lifetime.{handle_connection-others}
use client_server_with_lb_de.Tests.AuthSystem.{Memory, memory_system}

abbrev pub request_of : String → AuthRequest
request_of kind = record {
  kind = kind;
  username = "ann";
  email = "ann@example.org";
  password = "secret";
  token = "token-A";
}

abbrev ann : User
ann = record {
  id = "user-1";
  username = "ann";
  email = "ann@example.org";
  password_hash = "hash of secret";
}

-- A day, in nanoseconds.
abbrev pub day : ℕ
day = 86400000000000

abbrev no_user : Memory
no_user = record { sessions = λ _. none; session_rows = λ _. none; user = none; time = 0 }

-- The world once ann is registered.
abbrev pub with_ann : Memory
with_ann = record no_user { user = some ann }

abbrev pub ann_session : Session
ann_session = record {
  token = "token-A";
  user_id = "user-1";
  username = "ann";
  email = "ann@example.org";
  expires_at = 86400000000003;
  created_at = 4;
}

abbrev logged_in : Memory
logged_in = (handle_login memory_system day 9 (request_of "login") with_ann).1

abbrev pub login_answer : LoginResponseData
login_answer = record {
  token = "token-A";
  user_id = "user-1";
  username = "ann";
  email = "ann@example.org";
  expires_at = 86400;
}

login_run :
    handle_login memory_system day 9 (request_of "login") with_ann
    ≡ (ok (success (login_data login_answer)), logged_in)
unfolding handle_login login create_session
login_run = refl

handle_login-success_example :
    (session : Session) × (login_data login_answer ≡ login_response session)
    × LoggedIn memory_system day 9 "ann" "secret" with_ann session logged_in
handle_login-success_example =
    handle_login-success memory_system day 9 (request_of "login") with_ann logged_in
      (login_data login_answer) login_run

handle_validate-handle_login_example :
    (user : User) × ((memory_system.stores with_ann).users user.id ≡ some user)
    × (user.username ≡ "ann")
    × (memory_system.matches user.password_hash "secret" ≡ true)
    × ((handle_validate memory_system day 10 (request_of "validate") logged_in).0
        ≡ ok (success (valid_response user)))
unfolding handle_login login create_session
handle_validate-handle_login_example =
    handle_validate-handle_login memory_system day 9 (request_of "login") (request_of "validate")
      with_ann logged_in logged_in login_answer login_run refl refl refl
      (λ token m e. absurd ground arith, λ id m e. absurd ground arith)
      (λ token m e. absurd ground arith, λ id m e. absurd ground arith) (omega arith)

abbrev valid_answer : ValidateResponseData
valid_answer = record {
  valid = true;
  user_id = "user-1";
  username = "ann";
  email = "ann@example.org";
}

abbrev validated : Memory
validated = (handle_validate memory_system day 3 (request_of "validate") logged_in).1

validate_run :
    handle_validate memory_system day 3 (request_of "validate") logged_in
    ≡ (ok (success (validate_data valid_answer)), validated)
unfolding handle_login login create_session handle_validate validate_token get_session
validate_run = refl

handle_validate-valid_example :
    (user : User) × (validate_data valid_answer ≡ valid_response user)
    × Validated memory_system "token-A" logged_in user validated
handle_validate-valid_example =
    handle_validate-valid memory_system day 3 (request_of "validate") logged_in validated
      valid_answer validate_run refl

abbrev registered : Memory
registered = (handle_register memory_system day 3 (request_of "register") no_user).1

register_run :
    handle_register memory_system day 3 (request_of "register") no_user
    ≡ (ok (success (register_response ann)), registered)
unfolding handle_register register create_user
register_run = refl

handle_register-success_example :
    (user : User) × (register_response ann ≡ register_response user)
    × Registered memory_system "ann" "ann@example.org" "secret" no_user user registered
handle_register-success_example =
    handle_register-success memory_system day 3 (request_of "register") no_user registered
      (register_response ann) register_run

abbrev logged_out : Memory
logged_out = (handle_logout memory_system day 3 (request_of "logout") logged_in).1

logout_run :
    handle_logout memory_system day 3 (request_of "logout") logged_in
    ≡ (ok (success (message_data "logged out successfully")), logged_out)
unfolding handle_login login create_session handle_logout logout get_session delete_session
logout_run = refl

handle_validate-handle_logout_example :
    (handle_validate memory_system day 4 (request_of "validate") logged_out).0
    ≡ ok (success invalid_response)
handle_validate-handle_logout_example =
    handle_validate-handle_logout memory_system day 3 (request_of "logout") (request_of "validate")
      logged_in logged_out logged_out (message_data "logged out successfully")
      (λ u m e. absurd ground arith) logout_run refl refl

-- A session that has expired, and that Redis drops later or never.
abbrev expired_session : Session
expired_session = record {
  token = "token-A";
  user_id = "user-1";
  username = "ann";
  email = "ann@example.org";
  expires_at = 0;
  created_at = 0;
}

abbrev kept_expired : Option ℕ → Memory
kept_expired drops = record with_ann {
  sessions = λ _. some (record { session = expired_session; drops_at = drops });
  time = 5;
}

get_session-IsFinished_example :
    IsFinished (get_session memory_system 7 "token-A" (kept_expired (some 11))).0
get_session-IsFinished_example =
    get_session-IsFinished memory_system (λ token w. omega arith) 6 "token-A"
      (kept_expired (some 11)) (omega arith)

get_session-unfinished_example :
    (get_session memory_system 100 "token-A" (kept_expired none)).0 ≡ unfinished
get_session-unfinished_example =
    get_session-unfinished memory_system 100 "token-A" (kept_expired none) expired_session refl
      (omega arith) (λ v e h. absurd ground arith)

-- A connection with a blank line, a line that is not JSON, and a login.
abbrev parse_login : String → Option AuthRequest
parse_login line = if line == "{login}" then some (request_of "login") else none

abbrev three_lines : List (String × Bool)
three_lines = ("", true) ∷ ("login", true) ∷ ("{login}", true) ∷ []

abbrev two_answers : List AuthResponse
two_answers = failure "invalid JSON format" ∷ success (login_data login_answer) ∷ []

abbrev disconnected : Memory
disconnected = (handle_connection memory_system day 3 parse_login "c" three_lines with_ann).1

connection_run :
    handle_connection memory_system day 3 parse_login "c" three_lines with_ann
    ≡ (ok two_answers, disconnected)
unfolding handle_connection handle_lines handle_request handle_login login create_session
connection_run = refl

handle_connection-Served_example : Served memory_system day 3 parse_login three_lines two_answers
handle_connection-Served_example =
    handle_connection-Served memory_system day 3 parse_login "c" three_lines with_ann disconnected
      two_answers (refl, (refl, (refl, tt))) connection_run

abbrev kept : Stored
kept = record { session = record expired_session { token = "token-B" }; drops_at = none }

abbrev with_kept : Memory
with_kept = record with_ann { sessions = λ token. if token == "token-B" then some kept else none }

abbrev disconnected_kept : Memory
disconnected_kept = (handle_connection memory_system day 3 parse_login "c" three_lines with_kept).1

kept_run :
    handle_connection memory_system day 3 parse_login "c" three_lines with_kept
    ≡ (ok two_answers, disconnected_kept)
unfolding handle_connection handle_lines handle_request handle_login login create_session
kept_run = refl

handle_connection-others_example :
    ((memory_system.stores disconnected_kept).sessions "token-B" ≡ some kept)
    × ((memory_system.stores disconnected_kept).users "user-1" ≡ some ann)
handle_connection-others_example =
    handle_connection-others memory_system parse_login day 3 "c" "token-B" "user-1" kept ann
      three_lines with_kept disconnected_kept two_answers (tt, (tt, (differs, tt))) kept_run refl
      refl
  where
    differs : ◌≢◌ {A = String} "token-B" "token-A"
    differs e =
        let clash : true ≡ false = sym ((eq_iff "token-B" "token-A").1 e) in absurd ground arith
