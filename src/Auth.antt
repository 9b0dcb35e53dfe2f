-- ===== src/Auth.antt =====
-- tcp-auth-server: the TCP authentication server. This module has its data (internal/models and
-- pkg/protocol) and what a Go function with an `error` result gives.
pub mod World
pub mod Program
pub mod Sessions
pub mod Service
pub mod Handler
pub mod Commands
pub mod Recursion
pub mod UserSessions
pub mod Contracts
pub mod Clock
pub mod Creation
pub mod Reading
pub mod Responding
pub mod Login
pub mod RoundTrip
pub mod Registration
pub mod Keeping
pub mod Isolation
pub mod Kept
pub mod Logout
pub mod Refresh
pub mod Connection
pub mod Responses
pub mod Served
pub mod Lifetime
use client_server_with_lb_de.Base.{ℕ, String, Option, Bool}

-- models.User, less the times that only the database sets and reads.
pub record User : Type 0 where
  pub id : String
  pub username : String
  pub email : String
  pub password_hash : String

-- models.Session; times are nanoseconds.
pub record Session : Type 0 where
  pub token : String
  pub user_id : String
  pub username : String
  pub email : String
  pub expires_at : ℕ
  pub created_at : ℕ

-- protocol.Request; a missing field is the empty text, and `Data` is read by no handler.
pub record AuthRequest : Type 0 where
  pub kind : String
  pub username : String
  pub email : String
  pub password : String
  pub token : String

pub record LoginResponseData : Type 0 where
  pub token : String
  pub user_id : String
  pub username : String
  pub email : String
  pub expires_at : ℕ

pub record RegisterResponseData : Type 0 where
  pub user_id : String
  pub username : String
  pub email : String

pub record ValidateResponseData : Type 0 where
  pub valid : Bool
  pub user_id : String
  pub username : String
  pub email : String

-- The `data` of a response, before it is marshalled.
pub data AuthData : Type 0 where
  login_data : LoginResponseData → AuthData
  register_data : RegisterResponseData → AuthData
  validate_data : ValidateResponseData → AuthData
  message_data : String → AuthData

-- protocol.Response: its `status` is "success" or "error".
pub data AuthResponse : Type 0 where
  success : AuthData → AuthResponse
  failure : String → AuthResponse

-- What a function that returns a value and an `error` gives; `unfinished` is a recursion that has
-- not come to its end.
pub data Outcome (A : Type 0) : Type 0 where
  ok : A → Outcome A
  err : String → Outcome A
  unfinished : Outcome A
