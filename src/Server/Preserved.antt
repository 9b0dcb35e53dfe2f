-- ===== src/Server/Preserved.antt =====
-- Relations between the tables before and after a handler of server/src/server.js that each of its
-- statements keeps.
pub mod Reads
pub mod Placing
pub mod Writes
use client_server_with_lb_de.Base.{
  ℕ, String, Bool, true, false, arith, List, [], ◌∷◌, Option, none, some, ℤ, pos, leb_ℤ, ◌≡◌, refl,
  sym, ◌∙◌, ap, subst, inl, inr, Bool-cases,
}
use client_server_with_lb_de.Types.{Product}
use client_server_with_lb_de.Server.{
  OrderRow, CartRow, Statement, select_products, select_product, select_cart, select_entry,
  add_to_entry, insert_entry, set_entry, delete_entry, delete_cart, select_next_id, insert_order,
  insert_item, select_orders, select_order, select_items, Rows,
}
use client_server_with_lb_de.Server.Database.{Contents, Database, effect, Answers}
use client_server_with_lb_de.Server.Steps.{failure, success, queried, run_rest, caught}
use client_server_with_lb_de.Server.Router.{
  Route, preflight, health, list_products, list_orders, delete_cart, not_found,
}
use client_server_with_lb_de.Server.Handlers.{
  ServerResponse, Run, AddBody, OrderBody, catching, parsed, send, return_cart, add_item,
  with_product, change_item, insert_items, fetch_order, with_rows, send_error, send_product,
  send_order, place_order, get_session_id, order_item, order_row, order_id,
}
use client_server_with_lb_de.Server.Handlers
use client_server_with_lb_de.Server.Serve.{
  ServerRequest, Platform, get_products, get_orders, read_items, pattern_of, handle,
}

-- A relation between the contents before and after that holds of no change and of two in a row.
pub record Invariance : Type 1 where
  pub R : Contents → Contents → Type 0
  pub same : (c : Contents) → R c c
  pub trans : (c d e : Contents) → R c d → R d e → R c e

module _ (db : Database) (inv : Invariance) where
  open db use {Tables, contents, query}
  open inv use {R, same, trans}

  -- A part of a handler keeps the relation.
  pub record Keeps {A : Type 0} (m : Tables → A × Tables) : Type 0 where
    pub kept : (t : Tables) → R (contents t) (contents (m t).1)

  abbrev pub Allowed : Statement → Type 0
  Allowed q = (c : Contents) (rows : Rows q) → Answers q c rows → R c (effect q c)

  pub query-Keeps : (q : Statement) → Allowed q → Keeps (query q)
  query-Keeps q allowed = record {
    kept = λ t. elim (queried db q t) [
      | failure t' e still ↦
          subst (R (contents t)) (sym still ∙ ap (λ o. contents o.1) (sym e)) (same (contents t))
      | success rows t' e answers changed ↦
          subst (R (contents t)) (sym changed ∙ ap (λ o. contents o.1) (sym e))
            (allowed (contents t) rows answers)
    ];
  }

  rest-Keeps :
      {A B : Type 0} (f : A → Run db B) (c : Contents) (r : Option A) (t : Tables)
      → ((a : A) → Keeps (f a))
      → R c (contents t)
      → R c (contents (run_rest db f (r, t)).1)
  rest-Keeps f c none t next before = before
  rest-Keeps f c (some a) t next before = trans c (contents t) _ before ((next a).kept t)

  caught-Keeps :
      (status : ℕ) (message : String) (c : Contents) (r : Option ServerResponse) (t : Tables)
      → R c (contents t)
      → R c (contents (caught db status message (r, t)).1)
  caught-Keeps status message c none t before = before
  caught-Keeps status message c (some response) t before = before

  pub bind-Keeps :
      {A B : Type 0} (m : Run db A) (f : A → Run db B)
      → Keeps m
      → ((a : A) → Keeps (f a))
      → Keeps (Handlers.◌>>=◌ db m f)
  bind-Keeps m f first next = record {
    kept = λ t. rest-Keeps f (contents t) (m t).0 (m t).1 next (first.kept t);
  }

  pub catching-Keeps :
      (status : ℕ) (message : String) (m : Run db ServerResponse)
      → Keeps m
      → Keeps (catching db status message m)
  catching-Keeps status message m body = record {
    kept = λ t. caught-Keeps status message (contents t) (m t).0 (m t).1 (body.kept t);
  }

  pub read-Keeps : {A : Type 0} (o : A) → Keeps (λ t. (o, t))
  read-Keeps o = record { kept = λ t. same (contents t) }

  pub pure-Keeps : (q : Statement) → ((c : Contents) → effect q c ≡ c) → Keeps (query q)
  pure-Keeps q pure = query-Keeps q (λ c _ _. subst (R c) (sym (pure c)) (same c))
