-- ===== src/Auth/World.antt =====
-- What tcp-auth-server relies on: Redis and PostgreSQL, which may fail at any command, the clock,
-- the random numbers of tokens and ids, and bcrypt.
use client_server_with_lb_de.Base.{
  ℕ, String, Bool, true, false, List, Option, none, some, ◌+◌, ◌≤◌, ◌==◌, ◌=ℕ◌, leb, if◌then◌else◌,
  ◌≡◌, ◌≢◌,
}
use client_server_with_lb_de.Auth.{User, Session, Outcome, ok, err, unfinished}

-- The keys in Redis: "session:%s", "user_sessions:%s" and "connection:%s".
pub data Key : Type 0 where
  session_key user_sessions_key connection_key : String → Key

-- The commands to Redis and PostgreSQL, with their parameters, and the draws of random numbers.
pub data Command : Type 0 where
  random_token new_uuid : Command
  hash_password : String → Command
  set_session : String → Session → ℕ → Command
  get_value : String → Command
  delete_key : Key → Command
  set_add set_remove : String → String → Command
  set_expiration : String → ℕ → Command
  set_members : String → Command
  set_connection : String → String → String → ℕ → Command
  insert_session : String → String → ℕ → ℕ → Command
  delete_session_row delete_user_rows : String → Command
  user_exists : String → String → Command
  insert_user : User → Command
  select_by_username select_by_email select_by_id : String → Command

-- What a command answers; a value that is not there, and a query without a row, is `none`.
abbrev pub Answer : Command → Type 0
Answer random_token = String
Answer new_uuid = String
Answer (hash_password _) = String
Answer (get_value _) = Option Session
Answer (set_members _) = List String
Answer (user_exists _ _) = Bool
Answer (insert_user _) = User
Answer (select_by_username _) = Option User
Answer (select_by_email _) = Option User
Answer (select_by_id _) = Option User
Answer (set_session _ _ _) = Unit
Answer (delete_key _) = Unit
Answer (set_add _ _) = Unit
Answer (set_remove _ _) = Unit
Answer (set_expiration _ _) = Unit
Answer (set_connection _ _ _ _) = Unit
Answer (insert_session _ _ _ _) = Unit
Answer (delete_session_row _) = Unit
Answer (delete_user_rows _) = Unit

-- A session in Redis, and when Redis drops it, if ever.
pub record Stored : Type 0 where
  pub session : Session
  pub drops_at : Option ℕ

-- What Redis and PostgreSQL hold: the sessions by token, the users by id, and the user and the
-- expiry of the rows of `user_sessions` by token. The sets of a user's tokens and the
-- connections' entries are left out: no command of a request reads them.
pub record Stores : Type 0 where
  pub sessions : String → Option Stored
  pub users : String → Option User
  pub session_rows : String → Option (String × ℕ)

-- Redis keeps a value without an expiration, which a duration of zero stands for, for ever.
abbrev pub drop_time : ℕ → ℕ → Option ℕ
drop_time time ttl = if ttl =ℕ 0 then none else some (time + ttl)

abbrev pub update {ℓ} : {A : Type ℓ} → (String → A) → String → A → String → A
update f key a k = if k == key then a else f k

-- A row of `user_sessions`, once the rows of a user are deleted.
abbrev pub unless_of : String → Option (String × ℕ) → Option (String × ℕ)
unless_of user none = none
unless_of user (some row) = if row.0 == user then none else some row

-- The stores after a command that is executed at a time.
abbrev pub effect : Command → ℕ → Stores → Stores
effect (set_session token session ttl) time s = record s {
  sessions =
      update s.sessions token (some (record { session = session; drops_at = drop_time time ttl }));
}
effect (delete_key (session_key token)) time s = record s {
  sessions = update s.sessions token none;
}
effect (insert_session user token expires created) time s = record s {
  session_rows = update s.session_rows token (some (user, expires));
}
effect (delete_session_row token) time s = record s {
  session_rows = update s.session_rows token none;
}
effect (insert_user user) time s = record s { users = update s.users user.id (some user) }
effect (delete_user_rows user) time s = record s {
  session_rows = λ token. unless_of user (s.session_rows token);
}
effect _ time s = s

-- Redis drops an entry once its time is past.
abbrev pub kept_session : Session → Option ℕ → ℕ → Option Session
kept_session session none time = some session
kept_session session (some end) time = if leb time end then some session else none

-- The session that Redis gives for an entry at a time.
abbrev pub live : Option Stored → ℕ → Option Session
live none time = none
live (some stored) time = kept_session stored.session stored.drops_at time

-- The rows with a username, a key of the table.
abbrev pub IsNamed : Stores → String → Option User → Type 0
IsNamed s name none = (id : String) (u : User) → s.users id ≡ some u → u.username ≢ name
IsNamed s name (some u) = (s.users u.id ≡ some u) × (u.username ≡ name)

-- No user has the name or the e-mail address.
abbrev pub IsUnused : Stores → String → String → Type 0
IsUnused s name email =
    (id : String) (u : User) → s.users id ≡ some u → (u.username ≢ name) × (u.email ≢ email)

-- What an answer says of the stores at the time of the command. A new token is not empty and no key
-- in Redis, and a new id is no user's. A user is inserted only if id, name and address are unused;
-- the row that comes back is without the hash.
abbrev pub Says : (String → String → Bool) → (q : Command) → ℕ → Stores → Answer q → Type 0
Says matches random_token time s token = (s.sessions token ≡ none) × (token ≢ "")
Says matches new_uuid time s id = s.users id ≡ none
Says matches (hash_password password) time s hash = matches hash password ≡ true
Says matches (get_value token) time s found = found ≡ live (s.sessions token) time
Says matches (user_exists name email) time s found = found ≡ false → IsUnused s name email
Says matches (insert_user user) time s row =
    (row ≡ record user { password_hash = "" })
    × (s.users user.id ≡ none)
    × IsUnused s user.username user.email
Says matches (select_by_username name) time s row = IsNamed s name row
Says matches (select_by_id id) time s row = row ≡ s.users id
Says matches (select_by_email _) time s row = Unit
Says matches (set_members _) time s _ = Unit
Says matches (set_session _ _ _) time s _ = Unit
Says matches (delete_key _) time s _ = Unit
Says matches (set_add _ _) time s _ = Unit
Says matches (set_remove _ _) time s _ = Unit
Says matches (set_expiration _ _) time s _ = Unit
Says matches (set_connection _ _ _ _) time s _ = Unit
Says matches (insert_session _ _ _ _) time s _ = Unit
Says matches (delete_session_row _) time s _ = Unit
Says matches (delete_user_rows _) time s _ = Unit

-- The surroundings of the server. `matches hash password` is bcrypt's comparison; `read_clock` is
-- `time.Now()`. A command that fails has changed nothing; one that succeeds is executed at the time
-- that the clock has after it.
pub record System : Type 1 where
  pub World : Type 0
  pub stores : World → Stores
  pub clock : World → ℕ
  pub matches : String → String → Bool
  pub command : (q : Command) → World → Outcome (Answer q) × World
  pub read_clock : World → ℕ × World
  pub ends : (q : Command) (w : World) → (command q w).0 ≢ unfinished
  pub succeeds :
      (q : Command) (w : World) (a : Answer q)
      → (command q w).0 ≡ ok a
      → Says matches q (clock (command q w).1) (stores w) a
        × (stores (command q w).1 ≡ effect q (clock (command q w).1) (stores w))
  pub fails :
      (q : Command) (w : World) (e : String)
      → (command q w).0 ≡ err e
      → stores (command q w).1 ≡ stores w
  pub passes : (q : Command) (w : World) → clock w ≤ clock (command q w).1
  pub clock_reads :
      (w : World)
      → ((read_clock w).0 ≡ clock (read_clock w).1)
        × (stores (read_clock w).1 ≡ stores w)
        × (clock w ≤ clock (read_clock w).1)
