-- ===== src/Auth/Responding.antt =====
-- What a handler of internal/handler/auth_handler.go has done when it responds.
use client_server_with_lb_de.Base.{String, Bool, true, false, ◌≡◌, refl}
use client_server_with_lb_de.Auth.{AuthResponse, failure, Outcome, ok, err, unfinished}
use client_server_with_lb_de.Auth.World.{System}
use client_server_with_lb_de.Auth.Program.{Program}
use client_server_with_lb_de.Auth.Handler.{respond, or_respond, unless_missing}
use client_server_with_lb_de.Auth.Contracts.{Ends, Anything}

module _ (sys : System) where
  open sys use {World}

  -- The response of a handler whose function has returned.
  respond_lem :
      {A : Type 0} (P : A → World → Type 0) (Q : AuthResponse → World → Type 0)
      (good : A → AuthResponse) (bad : String → AuthResponse) (o : Outcome A) (w : World)
      → Ends sys P (Anything sys) (o, w)
      → ((a : A) → P a w → Q (good a) w)
      → ((e : String) → Q (bad e) w)
      → Ends sys Q (Anything sys) (respond good bad (o, w))
  respond_lem P Q good bad (ok a) w h if_good if_bad = record { post = if_good a h.post }
  respond_lem P Q good bad (err e) w h if_good if_bad = record { post = if_bad e }
  respond_lem P Q good bad unfinished w h if_good if_bad = record { post = tt }

  pub or_respond-Ends :
      {A : Type 0} (P : A → World → Type 0) (Q : AuthResponse → World → Type 0)
      (good : A → AuthResponse) (bad : String → AuthResponse) (m : Program World A) (w : World)
      → Ends sys P (Anything sys) (m w)
      → ((a : A) (w' : World) → P a w' → Q (good a) w')
      → ((e : String) (w' : World) → Q (bad e) w')
      → Ends sys Q (Anything sys) (or_respond m good bad w)
  or_respond-Ends P Q good bad m w h if_good if_bad =
      respond_lem P Q good bad (m w).0 (m w).1 h (λ a. if_good a (m w).1) (λ e. if_bad e (m w).1)

  pub unless_missing-Ends :
      (Q : AuthResponse → World → Type 0) (missing : Bool) (message : String)
      (k : Program World AuthResponse) (w : World)
      → (missing ≡ true → Q (failure message) w)
      → Ends sys Q (Anything sys) (k w)
      → Ends sys Q (Anything sys) (unless_missing missing message k w)
  unless_missing-Ends Q true message k w bad good = record { post = bad refl }
  unless_missing-Ends Q false message k w bad good = good
