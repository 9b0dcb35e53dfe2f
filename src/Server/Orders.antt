-- ===== src/Server/Orders.antt =====
-- What `POST /api/orders` of server/src/server.js does to the tables, and what it sends.
pub mod Statements
pub mod Race
use mathlib.Core.List.{Perm, append_assoc, append-nil}
use client_server_with_lb_de.Base.{
  String, List, [], ◌∷◌, ◌++◌, map, none, some, ◌+◌, ◌==◌, if◌then◌else◌, eq_iff, ◌≡◌, refl, sym,
  ◌∙◌, ap, subst, fun_ext, arith, Bool-cases, inl, inr,
}
use client_server_with_lb_de.Server.{
  OrderRow, OrderItem, CartRow, Statement, select_cart, delete_cart, select_next_id, insert_order,
  insert_item, select_order, select_items,
}
use client_server_with_lb_de.Server.Database.{
  Contents, Database, effect, drop_cart, Answers, row_list,
}
use client_server_with_lb_de.Server.Handlers.{
  ServerResponse, OrderView, OrderBody, Run, one_order, send_error, order_item, order_row, order_id,
  insert_items, fetch_order, view_of, with_rows, place_order, post_order, send, ◌>>=◌,
}
use client_server_with_lb_de.Server.Endings.{Shows}
use client_server_with_lb_de.Server.Steps.{
  failure, success, queried, bind-none, bind-some, catching-none, catching-some,
}
use client_server_with_lb_de.Server.Walk.{
  Walk, finished, stopped, query-Walk, bind-Walk, effects, effects-append,
}
use client_server_with_lb_de.Server.Orders.Statements.{
  item_statements, next_id, closing, creation, order_statements, ordered, effect-ordered,
  effects-order_statements, IsPlaced, is_placed, is_unused,
}

module _ (db : Database) where
  open db use {Tables, contents, query}

  -- The rest of "Fetch created order with items".
  abbrev with_orders : String → List OrderRow → Run db OrderView
  with_orders id orders = ◌>>=◌ db (query (select_items id)) (λ items. view_of db orders items)

  -- An order as the tables have it.
  abbrev Found : String → OrderRow → Tables → OrderView → Type 0
  Found id row t view = (view.row ≡ row) × Perm view.items ((contents t).order_items id)

  with_orders-Walk :
      (id : String) (row : OrderRow) (t t' : Tables)
      → contents t' ≡ contents t
      → Walk db (select_items id ∷ []) (Found id row t) t' (with_orders id (row ∷ []) t')
  with_orders-Walk id row t t' same =
      bind-Walk db (select_items id ∷ []) [] _ (Found id row t) (query (select_items id)) _ t'
        (query-Walk db (select_items id) t')
        (λ items t'' _ listed.
          finished (record { row = row; items = items }) t'' refl refl
            (refl, subst (λ c. Perm items (c.order_items id)) same listed))

  fetch_order-Walk :
      (id : String) (row : OrderRow) (t : Tables)
      → (contents t).orders id ≡ some row
      → Walk db (select_order id ∷ select_items id ∷ []) (Found id row t) t (fetch_order db id t)
  fetch_order-Walk id row t stored =
      bind-Walk db (select_order id ∷ []) (select_items id ∷ []) _ (Found id row t)
        (query (select_order id)) (with_orders id) t (query-Walk db (select_order id) t)
        (λ orders t' same listed.
          subst (λ l. Walk db (select_items id ∷ []) (Found id row t) t' (with_orders id l t'))
            (sym (listed ∙ ap row_list stored)) (with_orders-Walk id row t t' same))

  insert_items-Walk :
      (id : String) (rows : List CartRow) (t : Tables)
      → Walk db (item_statements id rows) (λ _. Unit {0}) t (insert_items db id rows t)
  unfolding insert_items
  insert_items-Walk id [] t = finished tt t refl refl tt
  insert_items-Walk id (row ∷ rows) t =
      bind-Walk db (insert_item id (order_item row) ∷ []) (item_statements id rows) _
        (λ _. Unit {0}) (query (insert_item id (order_item row))) (λ _. insert_items db id rows) t
        (query-Walk db (insert_item id (order_item row)) t)
        (λ _ t' _ _. insert_items-Walk id rows t')

  -- From the reading of the new order on.
  reply_order : String → Run db ServerResponse
  reply_order id =
      ◌>>=◌ db (fetch_order db id)
        (λ view. send db (record { status = 201; body = one_order view }))

  module _ (session : String) (body : OrderBody) (rows : List CartRow) where
    reply_order-Walk :
        (id : String) (c : Contents) (t : Tables)
        → c.orders id ≡ none
        → c.order_items id ≡ []
        → contents t ≡ ordered session (order_row id body rows) (map order_item rows) c
        → Walk db
            (select_order id ∷ select_items id ∷ [])
            (IsPlaced id body rows c)
            t
            (reply_order id t)
    unfolding reply_order
    reply_order-Walk id c t new unused done =
        bind-Walk db (select_order id ∷ select_items id ∷ []) [] _ (IsPlaced id body rows c)
          (fetch_order db id) _ t
          (fetch_order-Walk id (order_row id body rows) t
            (ap (λ d. d.orders id) done ∙ ground (arith, eq_iff id id)))
          (λ view t' _ (same_row, same_items).
            finished (record { status = 201; body = one_order view }) t' refl refl
              (is_placed view.items
                (ap
                  (λ r. record {
                    status = 201;
                    body = one_order (record { row = r; items = view.items });
                  })
                  same_row)
                (subst (Perm view.items)
                  (ap (λ d. d.order_items id) done ∙ ground (arith, eq_iff id id)) same_items)
                new unused))

    -- From "Create order" on.
    abbrev with_id : String → Run db ServerResponse
    with_id id = ◌>>=◌ db (query (insert_order (order_row id body rows))) (λ _.
        ◌>>=◌ db (insert_items db id rows)
          (λ _. ◌>>=◌ db (query (delete_cart session)) (λ _. reply_order id)))

    with_id-Walk :
        (id : String) (t : Tables)
        → Walk db
            (creation session id body rows)
            (IsPlaced id body rows (contents t))
            t
            (with_id id t)
    with_id-Walk id t =
        bind-Walk db (insert_order (order_row id body rows) ∷ [])
          (item_statements id rows ++ closing session id)
          (Answers (insert_order (order_row id body rows)) (contents t)) _
          (query (insert_order (order_row id body rows))) _ t
          (query-Walk db (insert_order (order_row id body rows)) t)
          (λ _ t1 made (new, unused).
            bind-Walk db (item_statements id rows) (closing session id) _ _
              (insert_items db id rows) _ t1 (insert_items-Walk id rows t1)
              (λ _ t2 filled _.
                bind-Walk db (delete_cart session ∷ []) (select_order id ∷ select_items id ∷ [])
                  (Answers (delete_cart session) (contents t2)) _ (query (delete_cart session)) _ t2
                  (query-Walk db (delete_cart session) t2)
                  (λ _ t3 emptied _. reply_order-Walk id (contents t) t3 new unused (
                    emptied
                    ∙ ap (effect (delete_cart session))
                        (filled ∙ ap (effects (item_statements id rows)) made)
                    ∙ effect-ordered session id body rows (contents t) unused))))

    place_order-Walk :
        (t : Tables)
        → Walk db
            (order_statements session (next_id (contents t)) body rows)
            (IsPlaced (next_id (contents t)) body rows (contents t))
            t
            (place_order db session body rows t)
    unfolding place_order reply_order
    place_order-Walk t =
        bind-Walk db (select_next_id ∷ []) _ (Answers select_next_id (contents t)) _
          (query select_next_id) (λ next. with_id (order_id next)) t
          (query-Walk db select_next_id t)
          (λ next t' same is_next.
            subst
              (λ c.
                Walk db (creation session (next_id (contents t)) body rows)
                  (IsPlaced (next_id (contents t)) body rows c) t' (with_id (order_id next) t'))
              same
              (subst
                (λ n.
                  Walk db (creation session (order_id n) body rows)
                    (IsPlaced (order_id n) body rows (contents t')) t' (with_id (order_id next) t'))
                is_next (with_id-Walk (order_id next) t')))

  -- How `POST /api/orders` ends.
  pub data Ordered (session : String) (b : OrderBody) (t : Tables) (o : ServerResponse × Tables)
      : Type 0 where
    placed :
        (row : CartRow) (more : List CartRow)
        → Shows (contents t) session (row ∷ more)
        → IsPlaced (next_id (contents t)) b (row ∷ more) (contents t) o.0
        → contents o.1
          ≡ ordered session
              (order_row (next_id (contents t)) b (row ∷ more))
              (map order_item (row ∷ more))
              (contents t)
        → Ordered session b t o
    cart_empty :
        o.0 ≡ send_error 400 "Cart is empty"
        → Shows (contents t) session []
        → contents o.1 ≡ contents t
        → Ordered session b t o
    cart_unread :
        o.0 ≡ send_error 400 "Invalid request body"
        → contents o.1 ≡ contents t
        → Ordered session b t o
    interrupted :
        (rows : List CartRow) (front back : List Statement)
        → Shows (contents t) session rows
        → front ++ back ≡ order_statements session (next_id (contents t)) b rows
        → o.0 ≡ send_error 400 "Invalid request body"
        → contents o.1 ≡ effects front (contents t)
        → Ordered session b t o

  abbrev try_order : String → OrderBody → Run db ServerResponse
  try_order session b = ◌>>=◌ db (query (select_cart session)) (with_rows db session b)

  -- `POST /api/orders` with a parsed body ends in one of four ways. If the session's cart holds
  -- products, a new order, under an id that was not in use, has the cart's rows as its items and
  -- their sum as its total, the session's cart is empty, nothing else has changed, and the order is
  -- sent with 201. If the cart is empty, that is sent with 400 and nothing has changed. Otherwise
  -- the answer is 400 "Invalid request body", and either nothing has changed, or a first part of
  -- the statements for the order has been executed, and the rest has not.
  pub post_order-Ordered :
      (session : String) (b : OrderBody) (t : Tables)
      → Ordered session b t (post_order db session (some b) t)
  unfolding post_order
  post_order-Ordered session b t = elim (queried db (select_cart session) t) [
    | failure t' e same ↦
        rw
          (catching-none db 400 "Invalid request body" (try_order session b) t t'
            (bind-none db (query (select_cart session)) (with_rows db session b) t t' e))
          (cart_unread refl same)
    | success [] t' e shows same ↦
        rw
          (catching-some db 400 "Invalid request body" (try_order session b) t t'
            (send_error 400 "Cart is empty")
            (bind-some db (query (select_cart session)) (with_rows db session b) t t' [] e))
          (cart_empty refl shows same)
    | success (row ∷ more) t' e shows same ↦
        let step =
          bind-some db (query (select_cart session)) (with_rows db session b) t t' (row ∷ more) e in
        elim (place_order-Walk session b (row ∷ more) t') [
          | finished response t'' e' changed is_new ↦
              let new = subst (λ c. IsPlaced (next_id c) b (row ∷ more) c response) same is_new in
              rw
                (catching-some db 400 "Invalid request body" (try_order session b) t t'' response
                  (step ∙ e'))
                (placed row more shows new (
                  changed
                  ∙ ap (λ c. effects (order_statements session (next_id c) b (row ∷ more)) c) same
                  ∙ effects-order_statements session (next_id (contents t)) b (row ∷ more)
                      (contents t) (is_unused new)))
          | stopped front back t'' split e' changed ↦
              rw
                (catching-none db 400 "Invalid request body" (try_order session b) t t''
                  (step ∙ e'))
                (interrupted (row ∷ more) front back shows
                  (split ∙ ap (λ c. order_statements session (next_id c) b (row ∷ more)) same) refl
                  (changed ∙ ap (effects front) same))
        ]
  ]
