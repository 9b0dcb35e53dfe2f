-- ===== src/Server/Preserved/Reads.antt =====
-- The reading handlers of server/src/server.js keep every invariance.
use client_server_with_lb_de.Base.{String, List, [], ◌∷◌, Option, some, refl}
use client_server_with_lb_de.Server.{
  OrderRow, select_products, select_product, select_cart, select_orders, select_order, select_items,
}
use client_server_with_lb_de.Server.Database.{Database}
use client_server_with_lb_de.Server.Handlers.{
  ServerResponse, Run, AddBody, OrderBody, catching, parsed, send, return_cart, add_item,
  with_product, change_item, insert_items, fetch_order, with_rows, send_error, send_product,
  send_order, place_order, get_session_id, order_item, order_row, order_id,
}
use client_server_with_lb_de.Server.Handlers
use client_server_with_lb_de.Server.Serve.{
  Platform, get_products, get_orders, read_items, pattern_of,
}
use client_server_with_lb_de.Server.Preserved.{
  Invariance, bind-Keeps, catching-Keeps, read-Keeps, pure-Keeps, Keeps,
}

module _ (db : Database) (inv : Invariance) where
  open db use {Tables, contents, query}

  pub get_product-Keeps : (id : String) → Keeps db inv (Handlers.get_product db id)
  unfolding Handlers.get_product
  get_product-Keeps id = catching-Keeps db inv _ _ _ (
      bind-Keeps db inv (query (select_product id)) _
        (pure-Keeps db inv (select_product id) (λ c. refl))
        (λ rows. elim rows as (λ l. Keeps db inv (send_product db l)) [
          | [] ↦ read-Keeps db inv _
          | row ∷ _ ↦ read-Keeps db inv _
        ]))

  pub get_products-Keeps :
      (platform : Platform) (wanted : Option String)
      → Keeps db inv (get_products platform db wanted)
  unfolding get_products
  get_products-Keeps platform wanted = catching-Keeps db inv _ _ _ (
      bind-Keeps db inv (query (select_products (pattern_of platform db wanted))) _
        (pure-Keeps db inv (select_products (pattern_of platform db wanted)) (λ c. refl))
        (λ rows. read-Keeps db inv _))

  pub get_order-Keeps : (id : String) → Keeps db inv (Handlers.get_order db id)
  unfolding Handlers.get_order
  get_order-Keeps id = catching-Keeps db inv _ _ _ (
      bind-Keeps db inv (query (select_order id)) _
        (pure-Keeps db inv (select_order id) (λ c. refl))
        (λ rows. elim rows as (λ l. Keeps db inv (send_order db id l)) [
          | [] ↦ read-Keeps db inv _
          | row ∷ _ ↦
              bind-Keeps db inv (query (select_items id)) _
                (pure-Keeps db inv (select_items id) (λ c. refl)) (λ items. read-Keeps db inv _)
        ]))

  pub read_items-Keeps :
      (platform : Platform) (rows : List OrderRow) → Keeps db inv (read_items platform db rows)
  unfolding read_items
  read_items-Keeps platform [] = read-Keeps db inv (some [])
  read_items-Keeps platform (row ∷ rows) = record {
    kept = λ t.
        inv.trans (contents t) _ _ ((pure-Keeps db inv (select_items row.id) (λ c. refl)).kept t)
          ((read_items-Keeps platform rows).kept (query (select_items row.id) t).1);
  }

  pub get_orders-Keeps : (platform : Platform) → Keeps db inv (get_orders platform db)
  unfolding get_orders
  get_orders-Keeps platform = catching-Keeps db inv _ _ _ (
      bind-Keeps db inv (query select_orders) _ (pure-Keeps db inv select_orders (λ c. refl))
        (λ rows.
          bind-Keeps db inv (read_items platform db rows) _ (read_items-Keeps platform rows)
            (λ views. read-Keeps db inv _)))

  pub return_cart-Keeps : (session : String) → Keeps db inv (return_cart db session)
  return_cart-Keeps session =
      bind-Keeps db inv (query (select_cart session)) _
        (pure-Keeps db inv (select_cart session) (λ c. refl)) (λ rows. read-Keeps db inv _)

  pub get_cart-Keeps : (session : String) → Keeps db inv (Handlers.get_cart db session)
  unfolding Handlers.get_cart
  get_cart-Keeps session = catching-Keeps db inv _ _ _ (return_cart-Keeps session)
