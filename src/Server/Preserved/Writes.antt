-- ===== src/Server/Preserved/Writes.antt =====
-- The handlers of server/src/server.js keep an invariance that each of their writing statements
-- keeps.
use client_server_with_lb_de.Base.{
  String, Bool, true, false, arith, List, [], ◌∷◌, Option, some, ℤ, pos, leb_ℤ, ◌≡◌, refl, inl, inr,
  Bool-cases,
}
use client_server_with_lb_de.Types.{Product}
use client_server_with_lb_de.Server.{
  CartRow, select_product, select_cart, select_entry, add_to_entry, insert_entry, set_entry,
  delete_entry, delete_cart,
}
use client_server_with_lb_de.Server.Database.{Database}
use client_server_with_lb_de.Server.Router.{
  Route, preflight, health, list_products, list_orders, delete_cart, not_found,
}
use client_server_with_lb_de.Server.Handlers.{
  ServerResponse, Run, AddBody, OrderBody, catching, parsed, send, return_cart, add_item,
  with_product, change_item, insert_items, fetch_order, with_rows, send_error, send_product,
  send_order, place_order, get_session_id, order_item, order_row, order_id,
}
use client_server_with_lb_de.Server.Handlers
use client_server_with_lb_de.Server.Serve.{ServerRequest, Platform, handle}
use client_server_with_lb_de.Server.Preserved.{
  Invariance, query-Keeps, bind-Keeps, catching-Keeps, read-Keeps, pure-Keeps, Keeps, Allowed,
}
use client_server_with_lb_de.Server.Preserved.Reads.{
  get_product-Keeps, get_products-Keeps, get_order-Keeps, get_orders-Keeps, return_cart-Keeps,
  get_cart-Keeps,
}

-- The routes that lead to a handler that reads.
abbrev pub is_read : Route → Bool
is_read Route.post_cart = false
is_read (Route.put_item _) = false
is_read (Route.delete_item _) = false
is_read delete_cart = false
is_read Route.post_order = false
is_read _ = true

module _ (db : Database) (inv : Invariance) where
  open db use {Tables, contents, query}

  -- The statements that change a session's cart, and the placing of an order, keep the relation.
  pub record IsKept (session : String) : Type 0 where
    pub add_to_entry_kept : (n : ℤ) (p : String) → Allowed db inv (add_to_entry n p session)
    pub insert_entry_kept : (p : String) (n : ℤ) → Allowed db inv (insert_entry p n session)
    pub set_entry_kept : (n : ℤ) (p : String) → Allowed db inv (set_entry n p session)
    pub delete_entry_kept : (p : String) → Allowed db inv (delete_entry p session)
    pub delete_cart_kept : Allowed db inv (delete_cart session)
    pub place_order_kept :
        (body : OrderBody) (rows : List CartRow) → Keeps db inv (place_order db session body rows)

  module _ (session : String) (kept : IsKept session) where
    add_item-Keeps :
        (b : AddBody) (existing : List ℤ) → Keeps db inv (add_item db b session existing)
    add_item-Keeps b [] =
        query-Keeps db inv (insert_entry b.product_id b.quantity session)
          (kept.insert_entry_kept b.product_id b.quantity)
    add_item-Keeps b (_ ∷ _) =
        query-Keeps db inv (add_to_entry b.quantity b.product_id session)
          (kept.add_to_entry_kept b.quantity b.product_id)

    with_product-Keeps :
        (b : AddBody) (found : List Product) → Keeps db inv (with_product db session b found)
    with_product-Keeps b [] = read-Keeps db inv _
    with_product-Keeps b (_ ∷ _) =
        bind-Keeps db inv (query (select_entry b.product_id session)) _
          (pure-Keeps db inv (select_entry b.product_id session) (λ c. refl))
          (λ existing.
            bind-Keeps db inv (add_item db b session existing) _ (add_item-Keeps b existing)
              (λ _. return_cart-Keeps db inv session))

    change_item-Keeps :
        (id : String) (quantity : ℤ) → Keeps db inv (change_item db id quantity session)
    change_item-Keeps id quantity = elim (Bool-cases (leb_ℤ quantity (pos 0))) [
      | inl e ↦ rw e (query-Keeps db inv (delete_entry id session) (kept.delete_entry_kept id))
      | inr e ↦
          rw e
            (query-Keeps db inv (set_entry quantity id session) (kept.set_entry_kept quantity id))
    ]

    with_rows-Keeps :
        (body : OrderBody) (rows : List CartRow) → Keeps db inv (with_rows db session body rows)
    with_rows-Keeps body [] = read-Keeps db inv (some (send_error 400 "Cart is empty"))
    with_rows-Keeps body (row ∷ more) = kept.place_order_kept body (row ∷ more)

    post_order-Keeps :
        (body : Option OrderBody) → Keeps db inv (Handlers.post_order db session body)
    unfolding Handlers.post_order
    post_order-Keeps body = catching-Keeps db inv _ _ _ (
        bind-Keeps db inv (parsed db body) _ (read-Keeps db inv body) (λ b.
          bind-Keeps db inv (query (select_cart session)) _
            (pure-Keeps db inv (select_cart session) (λ c. refl)) (λ rows. with_rows-Keeps b rows)))

    post_cart-Keeps : (body : Option AddBody) → Keeps db inv (Handlers.post_cart db session body)
    unfolding Handlers.post_cart
    post_cart-Keeps body = catching-Keeps db inv _ _ _ (
        bind-Keeps db inv (parsed db body) _ (read-Keeps db inv body) (λ b.
          bind-Keeps db inv (query (select_product b.product_id)) _
            (pure-Keeps db inv (select_product b.product_id) (λ c. refl)) (with_product-Keeps b)))

    put_item-Keeps :
        (id : String) (body : Option ℤ) → Keeps db inv (Handlers.put_item db session id body)
    unfolding Handlers.put_item
    put_item-Keeps id body = catching-Keeps db inv _ _ _ (
        bind-Keeps db inv (parsed db body) _ (read-Keeps db inv body) (λ quantity.
          bind-Keeps db inv (change_item db id quantity session) _ (change_item-Keeps id quantity)
            (λ _. return_cart-Keeps db inv session)))

    delete_item-Keeps : (id : String) → Keeps db inv (Handlers.delete_item db session id)
    unfolding Handlers.delete_item
    delete_item-Keeps id = catching-Keeps db inv _ _ _ (
        bind-Keeps db inv (query (delete_entry id session)) _
          (query-Keeps db inv (delete_entry id session) (kept.delete_entry_kept id))
          (λ _. return_cart-Keeps db inv session))

    clear_cart-Keeps : Keeps db inv (Handlers.clear_cart db session)
    unfolding Handlers.clear_cart
    clear_cart-Keeps = catching-Keeps db inv _ _ _ (
        bind-Keeps db inv (query (delete_cart session)) _
          (query-Keeps db inv (delete_cart session) kept.delete_cart_kept)
          (λ _. read-Keeps db inv _))

  -- Every statement of the request's session keeps the relation, so the request does.
  pub handle-Keeps :
      (platform : Platform) (route : Route) (r : ServerRequest)
      → IsKept (get_session_id r.session_header)
      → Keeps db inv (handle platform db route r)
  unfolding handle
  handle-Keeps platform preflight r kept = read-Keeps db inv _
  handle-Keeps platform health r kept = read-Keeps db inv _
  handle-Keeps platform list_products r kept = get_products-Keeps db inv platform r.search
  handle-Keeps platform (Route.get_product id) r kept = get_product-Keeps db inv id
  handle-Keeps platform Route.get_cart r kept = get_cart-Keeps db inv _
  handle-Keeps platform Route.post_cart r kept = post_cart-Keeps _ kept r.add_body
  handle-Keeps platform (Route.put_item id) r kept = put_item-Keeps _ kept id r.quantity_body
  handle-Keeps platform (Route.delete_item id) r kept = delete_item-Keeps _ kept id
  handle-Keeps platform delete_cart r kept = clear_cart-Keeps _ kept
  handle-Keeps platform list_orders r kept = get_orders-Keeps db inv platform
  handle-Keeps platform Route.post_order r kept = post_order-Keeps _ kept r.order_body
  handle-Keeps platform (Route.get_order id) r kept = get_order-Keeps db inv id
  handle-Keeps platform not_found r kept = read-Keeps db inv _

  -- A request that is served by a reading handler keeps it.
  pub handle_read-Keeps :
      (platform : Platform) (route : Route) (r : ServerRequest)
      → is_read route ≡ true
      → Keeps db inv (handle platform db route r)
  unfolding handle
  handle_read-Keeps platform preflight r e = read-Keeps db inv _
  handle_read-Keeps platform health r e = read-Keeps db inv _
  handle_read-Keeps platform list_products r e = get_products-Keeps db inv platform r.search
  handle_read-Keeps platform (Route.get_product id) r e = get_product-Keeps db inv id
  handle_read-Keeps platform Route.get_cart r e = get_cart-Keeps db inv _
  handle_read-Keeps platform list_orders r e = get_orders-Keeps db inv platform
  handle_read-Keeps platform (Route.get_order id) r e = get_order-Keeps db inv id
  handle_read-Keeps platform not_found r e = read-Keeps db inv _
  handle_read-Keeps platform Route.post_cart r e = absurd ground arith
  handle_read-Keeps platform (Route.put_item id) r e = absurd ground arith
  handle_read-Keeps platform (Route.delete_item id) r e = absurd ground arith
  handle_read-Keeps platform delete_cart r e = absurd ground arith
  handle_read-Keeps platform Route.post_order r e = absurd ground arith
