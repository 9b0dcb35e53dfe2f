-- ===== src/Auth/Connection.antt =====
-- One connection of main.go: the lines of a client and what is written back. Parsing a line as JSON
-- is a parameter, and for every line it is given whether a write of its response succeeds. The
-- lines are those that `bufio.Scanner` gives.
use client_server_with_lb_de.Base.{
  ℕ, String, Bool, true, false, List, [], ◌∷◌, Option, none, some, ◌+◌, ◌-◌, ◌≤◌, All, Bool-cases,
  inl, inr, ◌≡◌, refl, arith, ltb, ◌==◌, if◌then◌else◌,
}
use client_server_with_lb_de.Auth.{AuthRequest, AuthResponse, success, failure, login_data}
use client_server_with_lb_de.Auth.World.{System, connection_key, set_connection, delete_key}
use client_server_with_lb_de.Auth.Program.{Program, ◌>>=◌, ◌>>◌, return, attempt, ignoring, now}
use client_server_with_lb_de.Auth.Handler.{handle_request}

-- Connection, less the socket.
pub record Connection : Type 0 where
  pub id : String
  pub user_id : String
  pub token : String
  pub last_seen : ℕ

-- What a line does: nothing, a response that is written, one whose write fails and is not looked
-- at, or the end of the connection.
pub data Step : Type 0 where
  skipped : Connection → Step
  written : Connection → AuthResponse → Step
  lost : Connection → Step
  closed : Connection → Step

-- 30 minutes, in nanoseconds.
abbrev pub half_hour : ℕ
half_hour = 1800000000000

-- A response to a line that is not JSON: an error of the write is ignored.
abbrev pub sent_anyway : Bool → AuthResponse → Connection → Step
sent_anyway true answer connection = written connection answer
sent_anyway false answer connection = lost connection

-- A response to a request: the connection ends if the write fails.
abbrev pub sent : Bool → AuthResponse → Connection → Step
sent true answer connection = written connection answer
sent false answer connection = closed connection

-- A handler that returns an error.
abbrev pub or_internal : Option AuthResponse → AuthResponse
or_internal none = failure "internal server error"
or_internal (some answer) = answer

module _ (sys : System) (session_ttl n : ℕ) (parse : String → Option AuthRequest) where
  open sys use {World, command}

  -- The note of a successful login, in the connection and in Redis.
  abbrev pub noted_success : AuthResponse → Connection → Program World Connection
  noted_success (success (login_data d)) connection = do
    ignoring (command (set_connection connection.id d.user_id d.token half_hour))
    return (record connection { user_id = d.user_id; token = d.token })
  noted_success _ connection = return connection

  abbrev pub noted : AuthRequest → AuthResponse → Connection → Program World Connection
  noted r answer connection =
      if r.kind == "login" then noted_success answer connection else return connection

  abbrev pub handle_parsed : Option AuthRequest → Bool → Connection → Program World Step
  handle_parsed none writes connection =
      return (sent_anyway writes (failure "invalid JSON format") connection)
  handle_parsed (some r) writes connection = do
    answer ← attempt (handle_request sys session_ttl n r)
    connection ← noted r (or_internal answer) connection
    return (sent writes (or_internal answer) connection)

  -- The body of the loop of `handleConnection`.
  abbrev pub handle_line : String → Bool → Connection → Program World Step
  handle_line line writes connection = now sys >>= λ time.
      let connection = record connection { last_seen = time } in
      if line == ""
      then return (skipped connection)
      else handle_parsed (parse line) writes connection

  -- The loop after a line: `again` is the rest of it.
  abbrev pub go_on :
      (Connection → Program World (Connection × List AuthResponse))
      → Step
      → Program World (Connection × List AuthResponse)
  go_on again (skipped connection) = again connection
  go_on again (written connection answer) = do
    (end, answers) ← again connection
    return (end, answer ∷ answers)
  go_on again (lost connection) = again connection
  go_on again (closed connection) = return (connection, [])

  -- The loop of `handleConnection`: the connection at its end and the responses that are written.
  unfoldable pub handle_lines :
      List (String × Bool) → Connection → Program World (Connection × List AuthResponse)
  handle_lines [] connection = return (connection, [])
  handle_lines ((line, writes) ∷ lines) connection =
      handle_line line writes connection >>= go_on (handle_lines lines)

  -- `handleConnection`, with the deferred deletion.
  unfoldable pub handle_connection :
      String → List (String × Bool) → Program World (List AuthResponse)
  handle_connection id lines = do
    time ← now sys
    (end, answers) ←
        handle_lines lines (record { id = id; user_id = ""; token = ""; last_seen = time })
    ignoring (command (delete_key (connection_key id)))
    return answers

-- The connections that a round of `cleanupConnections` keeps open.
unfoldable swept : ℕ → List Connection → List Connection
swept time [] = []
swept time (connection ∷ connections) =
    let rest = swept time connections in
    if ltb half_hour (time - connection.last_seen) then rest else connection ∷ rest

-- The connections that are left were seen in the last half hour.
swept-All :
    (time : ℕ) (cs : List Connection) → All (λ c. time ≤ c.last_seen + half_hour) (swept time cs)
unfolding swept
swept-All time [] = tt
swept-All time (c ∷ cs) = elim (Bool-cases (ltb half_hour (time - c.last_seen))) [
  | inl stale ↦ rw stale (swept-All time cs)
  | inr fresh ↦
      rw fresh (let seen : time ≤ c.last_seen + half_hour = ground arith in seen, swept-All time cs)
]

-- If all connections were seen in the last half hour, all are left.
swept-fresh :
    (time : ℕ) (cs : List Connection)
    → All (λ c. time ≤ c.last_seen + half_hour) cs
    → swept time cs ≡ cs
unfolding swept
swept-fresh time [] h = refl
swept-fresh time (c ∷ cs) (seen, more) =
    let fresh : ltb half_hour (time - c.last_seen) ≡ false = ground arith in
    rw (fresh, swept-fresh time cs more) refl
