-- ===== src/Server/Walk.antt =====
-- Handlers of server/src/server.js as sequences of statements, of which a failure leaves a first
-- part done: there are no transactions.
use mathlib.Core.List.{append_assoc}
use client_server_with_lb_de.Base.{
  List, [], ◌∷◌, ◌++◌, Option, none, some, ◌≡◌, refl, sym, ◌∙◌, ap, subst,
}
use client_server_with_lb_de.Server.{Statement}
use client_server_with_lb_de.Server.Database.{Contents, Database, effect, Answers}
use client_server_with_lb_de.Server.Handlers.{Run, ◌>>=◌}
use client_server_with_lb_de.Server.Steps.{failure, success, queried, bind-none, bind-some}

-- The contents after some statements that all succeed.
abbrev pub effects : List Statement → Contents → Contents
effects [] c = c
effects (q ∷ qs) c = effects qs (effect q c)

pub effects-append :
    (qs rs : List Statement) (c : Contents) → effects (qs ++ rs) c ≡ effects rs (effects qs c)
effects-append [] rs c = refl
effects-append (q ∷ qs) rs c = effects-append qs rs (effect q c)

module _ (db : Database) where
  open db use {Tables, contents, query}

  -- A run of the statements in their order, whose result is `Good`, or that stops within them.
  pub data Walk {A : Type 0} (qs : List Statement) (Good : A → Type 0) (t : Tables)
      (o : Option A × Tables) : Type 0 where
    finished :
        (a : A) (t' : Tables)
        → o ≡ (some a, t')
        → contents t' ≡ effects qs (contents t)
        → Good a
        → Walk qs Good t o
    stopped :
        (front back : List Statement) (t' : Tables)
        → front ++ back ≡ qs
        → o ≡ (none, t')
        → contents t' ≡ effects front (contents t)
        → Walk qs Good t o

  pub query-Walk :
      (q : Statement) (t : Tables) → Walk (q ∷ []) (Answers q (contents t)) t (query q t)
  query-Walk q t = elim (queried db q t) [
    | failure t' e same ↦ stopped [] (q ∷ []) t' refl e same
    | success rows t' e answers changed ↦ finished rows t' e changed answers
  ]

  -- What follows, after statements that were all executed.
  after :
      {A : Type 0} (qs rs : List Statement) (Good : A → Type 0) (t t' : Tables)
      (o : Option A × Tables)
      → contents t' ≡ effects qs (contents t)
      → Walk rs Good t' o
      → Walk (qs ++ rs) Good t o
  after qs rs Good t t' o done (finished a u e changed good) =
      finished a u e (changed ∙ ap (effects rs) done ∙ sym (effects-append qs rs (contents t))) good
  after qs rs Good t t' o done (stopped front back u split e changed) =
      stopped (qs ++ front) back u (append_assoc qs front back ∙ ap (λ l. qs ++ l) split) e
        (changed ∙ ap (effects front) done ∙ sym (effects-append qs front (contents t)))

  pub bind-Walk :
      {A B : Type 0} (qs rs : List Statement) (Good : A → Type 0) (Then : B → Type 0) (m : Run db A)
      (f : A → Run db B) (t : Tables)
      → Walk qs Good t (m t)
      → ((a : A) (t' : Tables)
          → contents t' ≡ effects qs (contents t)
          → Good a
          → Walk rs Then t' (f a t'))
      → Walk (qs ++ rs) Then t (◌>>=◌ db m f t)
  bind-Walk qs rs Good Then m f t (finished a t' e changed good) next =
      subst (Walk (qs ++ rs) Then t) (sym (bind-some db m f t t' a e))
        (after qs rs Then t t' (f a t') changed (next a t' changed good))
  bind-Walk qs rs Good Then m f t (stopped front back t' split e changed) next =
      stopped front (back ++ rs) t' (sym (append_assoc front back rs) ∙ ap (λ l. l ++ rs) split)
        (bind-none db m f t t' e) changed
