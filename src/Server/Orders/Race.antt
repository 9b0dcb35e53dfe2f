-- ===== src/Server/Orders/Race.antt =====
-- Two `POST /api/orders` of server/src/server.js at once, on one server or on two behind the load
-- balancer: both read the number of orders before either has inserted its own.
use client_server_with_lb_de.Base.{
  ℕ, String, List, ◌∷◌, Option, none, some, ◌==◌, if◌then◌else◌, eq_iff, ◌≡◌, refl, sym, ◌∙◌, ap,
  subst, arith,
}
use client_server_with_lb_de.Server.{OrderRow, CartRow, select_next_id, insert_order, delete_cart}
use client_server_with_lb_de.Server.Database.{Database, Answers}
use client_server_with_lb_de.Server.Handlers.{
  Run, ServerResponse, OrderBody, one_order, send_error, order_row, order_id, insert_items,
  fetch_order, place_order, post_order, send, catching, ◌>>=◌,
}
use client_server_with_lb_de.Server.Steps.{
  failure, success, queried, bind-none, bind-some, catching-none, caught,
}
use client_server_with_lb_de.Server.Orders.{
  Ordered, placed, cart_empty, cart_unread, interrupted, post_order-Ordered,
}
use client_server_with_lb_de.Server.Orders.Statements.{next_id}

abbrev status_of : ServerResponse → ℕ
status_of r = r.status

module _ (db : Database) where
  open db use {Tables, contents, query}

  -- The statements after the insertion of the order.
  abbrev pub after_order : String → OrderBody → List CartRow → ℕ → Unit {0} → Run db ServerResponse
  after_order session body rows next _ = ◌>>=◌ db (insert_items db (order_id next) rows) (λ _.
      ◌>>=◌ db (query (delete_cart session)) (λ _.
        ◌>>=◌ db (fetch_order db (order_id next))
          (λ view. send db (record { status = 201; body = one_order view }))))

  -- The statements of an order once "Generate order ID" has read `next`.
  unfoldable pub order_as : String → OrderBody → List CartRow → ℕ → Run db ServerResponse
  order_as session body rows next =
      ◌>>=◌ db (query (insert_order (order_row (order_id next) body rows)))
        (after_order session body rows next)

  -- The rest of a request that has read `next`, with its `catch`.
  abbrev pub resumed : String → OrderBody → List CartRow → ℕ → Tables → ServerResponse × Tables
  resumed session body rows next =
      catching db 400 "Invalid request body" (order_as session body rows next)

  -- A request goes on in the tables in which it has read the number, if no other comes in between.
  resumed_lem :
      (session : String) (body : OrderBody) (rows : List CartRow) (next : ℕ) (t t' : Tables)
      → query select_next_id t ≡ (some next, t')
      → catching db 400 "Invalid request body" (place_order db session body rows) t
        ≡ resumed session body rows next t'
  unfolding place_order order_as
  resumed_lem session body rows next t t' read =
      ap (caught db 400 "Invalid request body")
        (bind-some db (query select_next_id) (order_as session body rows) t t' next read)

  -- With the id in use the request changes nothing.
  resumed_taken :
      (session : String) (body : OrderBody) (rows : List CartRow) (next : ℕ) (t : Tables)
      → ((contents t).orders (order_id next) ≡ none → ⊥)
      → ((resumed session body rows next t).0 ≡ send_error 400 "Invalid request body")
        × (contents (resumed session body rows next t).1 ≡ contents t)
  unfolding order_as
  resumed_taken session body rows next t taken =
      elim (queried db (insert_order (order_row (order_id next) body rows)) t) [
        | failure t' e same ↦
            rw
              (catching-none db 400 "Invalid request body" (order_as session body rows next) t t' (
                bind-none db (query (insert_order (order_row (order_id next) body rows)))
                  (after_order session body rows next) t t' e))
              (refl, same)
        | success _ t' e (new, unused) changed ↦ absurd (taken new)
      ]

  stored_at :
      (id : String) (b : OrderBody) (rows : List CartRow) (orders : String → Option OrderRow)
      → (if id == id then some (order_row id b rows) else orders id) ≡ some (order_row id b rows)
  stored_at id b rows orders = rw ((eq_iff id id).1 refl) refl

  taken_after :
      (session : String) (b : OrderBody) (t : Tables) (o : ServerResponse × Tables)
      → Ordered db session b t o
      → o.0.status ≡ 201
      → (contents o.1).orders (next_id (contents t)) ≡ none
      → ⊥
  taken_after session b t o (placed row more shows is_new done) created unused =
      let stored =
        ap (λ c. c.orders (next_id (contents t))) done
        ∙ stored_at (next_id (contents t)) b (row ∷ more) (contents t).orders in
      let clash : none ≡ some (order_row (next_id (contents t)) b (row ∷ more)) =
        sym unused ∙ stored in
      absurd ground arith
  taken_after session b t o (cart_empty sent shows same) created unused =
      let bad : ◌≡◌ {A = ℕ} 400 201 = sym (ap status_of sent) ∙ created in absurd ground arith
  taken_after session b t o (cart_unread sent same) created unused =
      let bad : ◌≡◌ {A = ℕ} 400 201 = sym (ap status_of sent) ∙ created in absurd ground arith
  taken_after session b t o (interrupted rows front back shows is sent done) created unused =
      let bad : ◌≡◌ {A = ℕ} 400 201 = sym (ap status_of sent) ∙ created in absurd ground arith

  -- Of two requests that have read the same number of orders, if one places its order with 201
  -- before the other inserts its own, then the other, whatever its session and its cart, sends 400
  -- "Invalid request body" and changes nothing.
  pub post_order-resumed :
      (session session' : String) (b b' : OrderBody) (rows : List CartRow) (next : ℕ)
      (t t' : Tables) (response : ServerResponse)
      → Answers select_next_id (contents t) next
      → post_order db session (some b) t ≡ (response, t')
      → response.status ≡ 201
      → ((resumed session' b' rows next t').0 ≡ send_error 400 "Invalid request body")
        × (contents (resumed session' b' rows next t').1 ≡ contents t')
  post_order-resumed session session' b b' rows next t t' response read run created =
      resumed_taken session' b' rows next t' (λ unused.
        taken_after session b t (response, t')
          (subst (Ordered db session b t) run (post_order-Ordered db session b t)) created
          (ap (λ n. (contents t').orders (order_id n)) (sym read) ∙ unused))
