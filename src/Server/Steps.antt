-- ===== src/Server/Steps.antt =====
-- One query of a handler of server/src/server.js, and reasoning about a whole handler.
use client_server_with_lb_de.Base.{String, Option, none, some, ◌≡◌, inl, inr, ap, ℕ, Option-cases}
use client_server_with_lb_de.Server.{Statement, Rows}
use client_server_with_lb_de.Server.Handlers.{Run, ◌>>=◌, catching, ServerResponse, send_error}
use client_server_with_lb_de.Server.Database.{Database, effect, Answers}

module _ (db : Database) where
  open db use {Tables, contents, query}

  -- A query that fails leaves the contents; one that succeeds answers and changes them as SQL says.
  pub data Queried (q : Statement) (t : Tables) : Type 0 where
    failure : (t' : Tables) → query q t ≡ (none, t') → contents t' ≡ contents t → Queried q t
    success :
        (rows : Rows q) (t' : Tables)
        → query q t ≡ (some rows, t')
        → Answers q (contents t) rows
        → contents t' ≡ effect q (contents t)
        → Queried q t

  pub queried : (q : Statement) (t : Tables) → Queried q t
  queried q t = elim (Option-cases (query q t).0) [
    | inl failed ↦ failure (query q t).1 (λ i. (failed i, (query q t).1)) (db.fails q t failed)
    | inr (rows, found) ↦
        let (answers, changed) = db.succeeds q t rows found in
        success rows (query q t).1 (λ i. (found i, (query q t).1)) answers changed
  ]

  abbrev pub run_rest : {A B : Type 0} → (A → Run db B) → Option A × Tables → Option B × Tables
  run_rest f (r, t') = elim r [ none ↦ (none, t') | some a ↦ f a t' ]

  abbrev pub caught : ℕ → String → Option ServerResponse × Tables → ServerResponse × Tables
  caught status message (r, t') = elim r [
    | none ↦ (send_error status message, t')
    | some response ↦ (response, t')
  ]

  -- One step of a handler, by what its first part gives.
  module _ {A B : Type 0} (m : Run db A) (f : A → Run db B) (t t' : Tables) where
    pub bind-none : m t ≡ (none, t') → ◌>>=◌ db m f t ≡ (none, t')
    bind-none e = ap (λ r. run_rest f r) e

    pub bind-some : (a : A) → m t ≡ (some a, t') → ◌>>=◌ db m f t ≡ f a t'
    bind-some a e = ap (λ r. run_rest f r) e

  module _ (status : ℕ) (message : String) (m : Run db ServerResponse) (t t' : Tables) where
    pub catching-none :
        m t ≡ (none, t') → catching db status message m t ≡ (send_error status message, t')
    catching-none e = ap (caught status message) e

    pub catching-some :
        (response : ServerResponse)
        → m t ≡ (some response, t')
        → catching db status message m t ≡ (response, t')
    catching-some response e = ap (caught status message) e
