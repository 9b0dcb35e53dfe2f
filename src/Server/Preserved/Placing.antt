-- ===== src/Server/Preserved/Placing.antt =====
-- The placing of an order in server/src/server.js keeps an invariance: in general, if each of its
-- statements keeps it; and if only the new order, under an id that is not in use, may differ.
use client_server_with_lb_de.Base.{String, List, [], ◌∷◌, none, some, ◌≡◌, refl, sym, subst}
use client_server_with_lb_de.Server.{
  OrderRow, CartRow, delete_cart, select_next_id, insert_order, insert_item, select_order,
  select_items,
}
use client_server_with_lb_de.Server.Database.{Contents, Database, effect}
use client_server_with_lb_de.Server.Steps.{failure, success, queried, bind-none, bind-some}
use client_server_with_lb_de.Server.Handlers.{
  ServerResponse, Run, OrderBody, send, insert_items, fetch_order, place_order, order_item,
  order_row, order_id, one_order,
}
use client_server_with_lb_de.Server.Handlers
use client_server_with_lb_de.Server.Preserved.{
  Invariance, query-Keeps, bind-Keeps, read-Keeps, pure-Keeps, Keeps, Allowed,
}

module _ (db : Database) where
  open db use {query}

  -- The placing of an order after the row of the order is inserted.
  abbrev pub fill_order : String → String → List CartRow → Run db ServerResponse
  fill_order session id rows = Handlers.◌>>=◌ db (insert_items db id rows) (λ _.
      Handlers.◌>>=◌ db (query (delete_cart session)) (λ _.
        Handlers.◌>>=◌ db (fetch_order db id)
          (λ view. send db (record { status = 201; body = one_order view }))))

module _ (db : Database) (inv : Invariance) where
  open db use {Tables, contents, query}
  open inv use {R, same, trans}

  insert_items-Keeps :
      (id : String) (rows : List CartRow)
      → ((row : CartRow) → Allowed db inv (insert_item id (order_item row)))
      → Keeps db inv (insert_items db id rows)
  unfolding insert_items
  insert_items-Keeps id [] items = read-Keeps db inv _
  insert_items-Keeps id (row ∷ rows) items =
      bind-Keeps db inv (query (insert_item id (order_item row))) _
        (query-Keeps db inv (insert_item id (order_item row)) (items row))
        (λ _. insert_items-Keeps id rows items)

  fetch_order-Keeps : (id : String) → Keeps db inv (fetch_order db id)
  fetch_order-Keeps id =
      bind-Keeps db inv (query (select_order id)) _
        (pure-Keeps db inv (select_order id) (λ c. refl))
        (λ orders.
          bind-Keeps db inv (query (select_items id)) _
            (pure-Keeps db inv (select_items id) (λ c. refl))
            (λ items. elim orders as (λ l. Keeps db inv (Handlers.view_of db l items)) [
              | [] ↦ read-Keeps db inv none
              | row ∷ _ ↦ read-Keeps db inv (some (record { row = row; items = items }))
            ]))

  pub fill_order-Keeps :
      (session id : String) (rows : List CartRow)
      → ((row : CartRow) → Allowed db inv (insert_item id (order_item row)))
      → Allowed db inv (delete_cart session)
      → Keeps db inv (fill_order db session id rows)
  fill_order-Keeps session id rows items cart =
      bind-Keeps db inv (insert_items db id rows) _ (insert_items-Keeps id rows items) (λ _.
        bind-Keeps db inv (query (delete_cart session)) _
          (query-Keeps db inv (delete_cart session) cart)
          (λ _.
            bind-Keeps db inv (fetch_order db id) _ (fetch_order-Keeps id)
              (λ view. read-Keeps db inv _)))

  placed-Keeps :
      (session : String) (body : OrderBody) (rows : List CartRow)
      → ((id : String)
          → Keeps db inv (
              Handlers.◌>>=◌ db
                (query (insert_order (order_row id body rows)))
                (λ _. fill_order db session id rows)))
      → Keeps db inv (place_order db session body rows)
  unfolding place_order
  placed-Keeps session body rows rest =
      bind-Keeps db inv (query select_next_id) _ (pure-Keeps db inv select_next_id (λ c. refl))
        (λ next. rest (order_id next))

  -- Each statement of the placing keeps the relation.
  pub place_order-Keeps :
      (session : String) (body : OrderBody) (rows : List CartRow)
      → ((row : OrderRow) → Allowed db inv (insert_order row))
      → ((id : String) (row : CartRow) → Allowed db inv (insert_item id (order_item row)))
      → Allowed db inv (delete_cart session)
      → Keeps db inv (place_order db session body rows)
  place_order-Keeps session body rows order items cart = placed-Keeps session body rows (λ id.
      bind-Keeps db inv (query (insert_order (order_row id body rows))) _
        (query-Keeps db inv (insert_order (order_row id body rows))
          (order (order_row id body rows)))
        (λ _. fill_order-Keeps session id rows (items id) cart))

  -- The insertion of the row keeps the relation, and what follows it keeps it under the condition
  -- that the id of the new order was not in use before.
  pub place_order-Keeps_new :
      (session : String) (body : OrderBody) (rows : List CartRow)
      → ((id : String) (c : Contents) (t : Tables)
          → c.orders id ≡ none
          → contents t ≡ effect (insert_order (order_row id body rows)) c
          → R c (contents (fill_order db session id rows t).1))
      → Keeps db inv (place_order db session body rows)
  place_order-Keeps_new session body rows filled = placed-Keeps session body rows (λ id.
      let first = query (insert_order (order_row id body rows)) in
      let more = λ (_ : Unit {0}). fill_order db session id rows in
      record {
        kept = λ t. elim (queried db (insert_order (order_row id body rows)) t) [
          | failure t' e still ↦
              rw (bind-none db first more t t' e)
                (subst (R (contents t)) (sym still) (same (contents t)))
          | success made t' e (unused, _) changed ↦
              rw (bind-some db first more t t' made e) (filled id (contents t) t' unused changed)
        ];
      })
