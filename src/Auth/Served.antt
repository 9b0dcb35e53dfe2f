-- ===== src/Auth/Served.antt =====
-- What `handleConnection` of main.go writes back, and what a whole connection leaves as it is.
use text.Mathlib.TextEquality.{eq_iff}
use client_server_with_lb_de.Base.{
  ℕ, String, Bool, true, false, List, [], ◌∷◌, Option, none, some, ◌==◌, if◌then◌else◌, ◌≡◌, ◌≢◌,
  ◌⊎◌, refl, sym, ◌∙◌, ap, subst, inl, inr, Bool-cases, arith,
}
use client_server_with_lb_de.Auth.{AuthRequest, AuthResponse, failure, Outcome, ok, err, unfinished}
use client_server_with_lb_de.Auth.World.{System, connection_key, delete_key}
use client_server_with_lb_de.Auth.Program.{return, attempt, ignoring, now, looked_at}
use client_server_with_lb_de.Auth.Handler.{handle_request}
use client_server_with_lb_de.Auth.Contracts.{
  Ends, bind-Ends, Ends-Anything, Ends-value, Ends-imp, Anything,
}
use client_server_with_lb_de.Auth.Responses.{handle_request-Responds}
use client_server_with_lb_de.Auth.Connection.{
  Connection, Step, skipped, written, lost, closed, or_internal, noted, handle_parsed, handle_line,
  go_on, handle_lines, handle_connection,
}

module _ (sys : System) (session_ttl n : ℕ) (parse : String → Option AuthRequest) where
  open sys use {World, stores, command}

  -- What is written for the lines, if every write succeeds: nothing for a blank line, one error for
  -- a line that is not JSON, and what the handler has responded for a request.
  pub data Served : List (String × Bool) → List AuthResponse → Type 0 where
    at_end : Served [] []
    blank :
        (lines : List (String × Bool)) (answers : List AuthResponse)
        → Served lines answers
        → Served (("", true) ∷ lines) answers
    malformed :
        (line : String) (lines : List (String × Bool)) (answers : List AuthResponse)
        → line ≢ ""
        → parse line ≡ none
        → Served lines answers
        → Served ((line, true) ∷ lines) (failure "invalid JSON format" ∷ answers)
    responded :
        (line : String) (lines : List (String × Bool)) (answers : List AuthResponse)
        (r : AuthRequest) (answer : AuthResponse) (v v' : World)
        → line ≢ ""
        → parse line ≡ some r
        → handle_request sys session_ttl n r v ≡ (ok answer, v')
        → Served lines answers
        → Served ((line, true) ∷ lines) (answer ∷ answers)

  -- What a line has done whose write succeeds.
  abbrev DoneBy : String → Step → Type 0
  DoneBy line (skipped c) = line ≡ ""
  DoneBy line (written c answer) =
      (line ≢ "")
      × (((parse line ≡ none) × (answer ≡ failure "invalid JSON format"))
          ⊎ ((r : AuthRequest) × (v : World) × (v' : World) × (parse line ≡ some r)
              × (handle_request sys session_ttl n r v ≡ (ok answer, v'))))
  DoneBy line (lost c) = ⊥
  DoneBy line (closed c) = ⊥

  -- The handler has responded so, in some world.
  abbrev Response : AuthRequest → Option AuthResponse → World → Type 0
  Response r o _ =
      (answer : AuthResponse) × (v : World) × (v' : World) × (o ≡ some answer)
      × (handle_request sys session_ttl n r v ≡ (ok answer, v'))

  looked_at-Response :
      (r : AuthRequest) (w : World) (o : Outcome AuthResponse × World)
      → handle_request sys session_ttl n r w ≡ o
      → Ends sys (Response r) (Anything sys) (looked_at o)
  looked_at-Response r w (ok a, w') run = record { post = (a, w, w', refl, run) }
  looked_at-Response r w (err e, w') run =
      absurd ((handle_request-Responds sys session_ttl n r).at w e (ap (λ o. o.0) run))
  looked_at-Response r w (unfinished, w') run = record { post = tt }

  handle_parsed-Ends :
      (line : String) (c : Connection) (o : Option AuthRequest) (w : World)
      → line ≢ ""
      → parse line ≡ o
      → Ends sys
          (λ step _. DoneBy line step)
          (Anything sys)
          (handle_parsed sys session_ttl n parse o true c w)
  handle_parsed-Ends line c none w filled parsed = record { post = (filled, inl (parsed, refl)) }
  handle_parsed-Ends line c (some r) w filled parsed =
      bind-Ends sys (Response r) (λ step _. DoneBy line step) (Anything sys)
        (attempt (handle_request sys session_ttl n r)) _ w
        (looked_at-Response r w (handle_request sys session_ttl n r w) refl)
        (λ o u (answer, v, v', is, run).
          bind-Ends sys (λ _. Anything sys) (λ step _. DoneBy line step) (Anything sys)
            (noted sys session_ttl n parse r (or_internal o) c) _ u
            (Ends-Anything sys (noted sys session_ttl n parse r (or_internal o) c u))
            (λ d x _. record {
              post = (
                filled,
                inr (r, v, v', parsed, run ∙ ap (λ a. (ok (or_internal a), v')) (sym is)),
              );
            }))

  handle_line-Ends :
      (line : String) (c : Connection) (w : World)
      → Ends sys
          (λ step _. DoneBy line step)
          (Anything sys)
          (handle_line sys session_ttl n parse line true c w)
  handle_line-Ends line c w =
      bind-Ends sys (λ _. Anything sys) (λ step _. DoneBy line step) (Anything sys) (now sys) _ w
        (Ends-Anything sys (now sys w))
        (λ time u _.
          elim (Bool-cases (line == ""))
            as (λ _.
              Ends sys (λ step _. DoneBy line step) (Anything sys)
                ((if line == ""
                    then return (skipped (record c { last_seen = time }))
                    else handle_parsed sys session_ttl n parse (parse line) true
                        (record c { last_seen = time }))
                  u)) [
                    | inl empty ↦ rw empty (record { post = (eq_iff line "").0 empty })
                    | inr filled ↦ rw filled (
                        handle_parsed-Ends line (record c { last_seen = time }) (parse line) u
                          (λ e.
                            let clash : true ≡ false = sym ((eq_iff line "").1 e) ∙ filled in
                            absurd ground arith)
                          refl)
                  ])

  -- Every write succeeds.
  abbrev pub AllWritten : List (String × Bool) → Type 0
  AllWritten [] = Unit
  AllWritten ((line, writes) ∷ lines) = (writes ≡ true) × AllWritten lines

  Served-written :
      (line : String) (lines : List (String × Bool)) (c : Connection) (answer : AuthResponse)
      (answers : List AuthResponse)
      → DoneBy line (written c answer)
      → Served lines answers
      → Served ((line, true) ∷ lines) (answer ∷ answers)
  Served-written line lines c answer answers (filled, inl (parsed, is)) h =
      subst (λ a. Served ((line, true) ∷ lines) (a ∷ answers)) (sym is)
        (malformed line lines answers filled parsed h)
  Served-written line lines c answer answers (filled, inr (r, v, v', parsed, run)) h =
      responded line lines answers r answer v v' filled parsed run h

  go_on-Ends :
      (line : String) (lines : List (String × Bool)) (step : Step) (w : World)
      → DoneBy line step
      → ((c : Connection) (v : World)
          → Ends sys
              (λ out _. Served lines out.1)
              (Anything sys)
              (handle_lines sys session_ttl n parse lines c v))
      → Ends sys
          (λ out _. Served ((line, true) ∷ lines) out.1)
          (Anything sys)
          (go_on sys session_ttl n parse (handle_lines sys session_ttl n parse lines) step w)
  go_on-Ends line lines (skipped c) w is rest =
      Ends-imp sys (λ out _. Served lines out.1) (λ out _. Served ((line, true) ∷ lines) out.1)
        (Anything sys) (Anything sys) (handle_lines sys session_ttl n parse lines c w) (rest c w)
        (λ out _ h. subst (λ l. Served ((l, true) ∷ lines) out.1) (sym is) (blank lines out.1 h))
        (λ _ h. h)
  go_on-Ends line lines (written c answer) w done rest =
      bind-Ends sys (λ out _. Served lines out.1) (λ out _. Served ((line, true) ∷ lines) out.1)
        (Anything sys) (handle_lines sys session_ttl n parse lines c) _ w (rest c w)
        (λ out v h. record { post = Served-written line lines c answer out.1 done h })
  go_on-Ends line lines (lost c) w done rest = absurd done
  go_on-Ends line lines (closed c) w done rest = absurd done

  handle_lines-Ends :
      (lines : List (String × Bool)) (c : Connection) (w : World)
      → AllWritten lines
      → Ends sys
          (λ out _. Served lines out.1)
          (Anything sys)
          (handle_lines sys session_ttl n parse lines c w)
  unfolding handle_lines
  handle_lines-Ends [] c w all = record { post = at_end }
  handle_lines-Ends ((line, false) ∷ lines) c w (is_true, all) = absurd ground arith
  handle_lines-Ends ((line, true) ∷ lines) c w (is_true, all) =
      bind-Ends sys (λ step _. DoneBy line step) (λ out _. Served ((line, true) ∷ lines) out.1)
        (Anything sys) (handle_line sys session_ttl n parse line true c)
        (go_on sys session_ttl n parse (handle_lines sys session_ttl n parse lines)) w
        (handle_line-Ends line c w)
        (λ step u done. go_on-Ends line lines step u done (λ d v. handle_lines-Ends lines d v all))

  -- A connection whose writes succeed, when it is over, has got nothing for a blank line, one error
  -- for a line that is not JSON, and for every request exactly the handler's response, in the order
  -- of the lines.
  pub handle_connection-Served :
      (id : String) (lines : List (String × Bool)) (w w' : World) (answers : List AuthResponse)
      → AllWritten lines
      → handle_connection sys session_ttl n parse id lines w ≡ (ok answers, w')
      → Served lines answers
  unfolding handle_connection
  handle_connection-Served id lines w w' answers all run =
      Ends-value sys (λ out _. Served lines out) (Anything sys)
        (handle_connection sys session_ttl n parse id lines w) answers w'
        (bind-Ends sys (λ _. Anything sys) (λ out _. Served lines out) (Anything sys) (now sys) _ w
          (Ends-Anything sys (now sys w))
          (λ time u _.
            bind-Ends sys (λ out _. Served lines out.1) (λ out _. Served lines out) (Anything sys)
              (handle_lines sys session_ttl n parse lines
                (record { id = id; user_id = ""; token = ""; last_seen = time }))
              _ u
              (handle_lines-Ends lines
                (record { id = id; user_id = ""; token = ""; last_seen = time }) u all)
              (λ out v served.
                bind-Ends sys (λ _. Anything sys) (λ out _. Served lines out) (Anything sys)
                  (ignoring (command (delete_key (connection_key id)))) (λ _. return out.1) v
                  (Ends-Anything sys (ignoring (command (delete_key (connection_key id))) v))
                  (λ _ x _. record { post = served }))))
        run
