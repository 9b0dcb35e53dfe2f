-- ===== src/Tests/Server.antt =====
-- The server's theorems over a database in memory that holds one session's cart and one order.
use client_server_with_lb_de.Base.{
  List, [], ◌∷◌, String, false, [], none, some, pos, ◌==◌, ◌&&◌, if◌then◌else◌, ◌≡◌, ◌≢◌, ◌⊎◌, refl,
  arith,
}
use client_server_with_lb_de.Base.Decimal.{decimal}
use client_server_with_lb_de.Store.{initial_state, app_reducer}
use client_server_with_lb_de.Store.Invariant.{IsCart}
use client_server_with_lb_de.Server.{OrderRow}
use client_server_with_lb_de.Server.Database.{Database}
use client_server_with_lb_de.Server.{CartRow}
use client_server_with_lb_de.Server.Memory.{Memory, memory}
use client_server_with_lb_de.Server.Handlers.{
  send_error, post_cart, put_item, post_order, AddBody, OrderBody, place_order, insert_items,
}
use client_server_with_lb_de.Server.CartWrites
use client_server_with_lb_de.Server.Endings.{Ended, added, changed}
use client_server_with_lb_de.Server.Orders
use client_server_with_lb_de.Server.Orders.Race
use client_server_with_lb_de.Server.Orders.{Ordered}
use client_server_with_lb_de.Server.Serve.{ServerRequest, Platform, serve}
use client_server_with_lb_de.Server.Isolation
use client_server_with_lb_de.Agreement
use client_server_with_lb_de.Agreement.{
  CartCall, Exchanged, start, exchange, action_of, serve_call, quantities,
}
use client_server_with_lb_de.Tests.Samples.{phone, backpack}

abbrev stored_order : OrderRow
stored_order = record {
  id = "ORD-1";
  customer_name = some "Ada";
  customer_email = none;
  customer_address = none;
  customer_phone = none;
  status = "pending";
  total_amount = pos 7999;
}

-- The session "s" has two phones in its cart.
abbrev tables : Memory
tables = record {
  cart = λ s p. if s == "s" && p == "1" then some (pos 2) else none;
  orders = λ id. if id == "ORD-1" then some stored_order else none;
  order_items = λ id. [];
  order_count = 1;
  is_down = false;
}

abbrev db : Database
db = memory phone backpack refl

abbrev add_body : AddBody
add_body = record { product_id = "7"; quantity = pos 1 }

abbrev order_body : OrderBody
order_body = record {
  customer_name = some "Ada";
  customer_email = some "";
  customer_address = none;
  customer_phone = none;
}

abbrev platform : Platform
platform = record { to_lower_case = λ s. s; address = "localhost:3001" }

abbrev request : String → String → ServerRequest
request method path = record {
  method = method;
  path = path;
  search = none;
  session_header = none;
  add_body = some add_body;
  quantity_body = some (pos 3);
  order_body = some order_body;
}

post_cart-Ended_example :
    let o = post_cart db "s" (some add_body) tables in
    let listed = (db.contents tables).products "7" in
    ((listed ≢ none)
      × Ended db "s" (added "7" (pos 1) "s") (send_error 400 "Invalid request body") tables o)
    ⊎ ((listed ≡ none)
        × (db.contents o.1 ≡ db.contents tables)
        × ((o.0 ≡ send_error 404 "Product not found")
            ⊎ (o.0 ≡ send_error 400 "Invalid request body")))
post_cart-Ended_example = CartWrites.post_cart-Ended db "s" add_body tables

put_item-Ended_example :
    Ended db "s"
      (changed "1" (pos 5) "s")
      (send_error 400 "Invalid request body")
      tables
      (put_item db "s" "1" (some (pos 5)) tables)
put_item-Ended_example = CartWrites.put_item-Ended db "s" "1" (pos 5) tables

post_order-Ordered_example :
    Ordered db "s" order_body tables (post_order db "s" (some order_body) tables)
post_order-Ordered_example = Orders.post_order-Ordered db "s" order_body tables

post_order_created : (post_order db "s" (some order_body) tables).0.status ≡ 201
unfolding post_order place_order insert_items decimal
post_order_created = refl

abbrev one_phone : List CartRow
one_phone = record { product = phone; quantity = pos 1 } ∷ []

abbrev after_order : Memory
after_order = (post_order db "s" (some order_body) tables).1

post_order-resumed_example :
    ((Race.resumed db "c" order_body one_phone 2 after_order).0
      ≡ send_error 400 "Invalid request body")
    × (db.contents (Race.resumed db "c" order_body one_phone 2 after_order).1
        ≡ db.contents after_order)
post_order-resumed_example =
    Race.post_order-resumed db "s" "c" order_body order_body one_phone 2 tables after_order
      (post_order db "s" (some order_body) tables).0 (omega arith) refl post_order_created

post_order_empty : (post_order db "c" (some order_body) tables).0 ≡ send_error 400 "Cart is empty"
unfolding post_order
post_order_empty = refl

-- The id of the new order is taken, so nothing is done.
post_order_taken :
    (post_order db "s" (some order_body) (record tables { order_count = 0 })).0
    ≡ send_error 400 "Invalid request body"
unfolding post_order place_order decimal
post_order_taken = refl

serve-other_session_example :
    ((db.contents (serve platform db (request "POST" "/api/cart") tables).1).cart "s" "1"
      ≡ (db.contents tables).cart "s" "1")
    × ((db.contents (serve platform db (request "POST" "/api/cart") tables).1).products
        ≡ (db.contents tables).products)
serve-other_session_example =
    Isolation.serve-other_session platform db (request "POST" "/api/cart") "s" "1" tables refl

serve-stored_order_example :
    let after = db.contents (serve platform db (request "POST" "/api/orders") tables).1 in
    (after.orders "ORD-1" ≡ some stored_order)
    × (after.order_items "ORD-1" ≡ (db.contents tables).order_items "ORD-1")
serve-stored_order_example =
    Isolation.serve-stored_order platform db (request "POST" "/api/orders") "ORD-1" stored_order
      tables refl

serve-get_example :
    db.contents (serve platform db (request "GET" "/api/cart") tables).1 ≡ db.contents tables
serve-get_example = Isolation.serve-get platform db (request "GET" "/api/cart") tables refl

-- The client of another session, with an empty cart, adds a phone and sets its quantity.
abbrev added_phone : CartCall
added_phone = CartCall.add phone (pos 1)

exchanged :
    Exchanged db "c" initial_state tables
      (app_reducer initial_state (action_of added_phone))
      (serve_call db "c" added_phone tables).1
unfolding serve_call post_cart
exchanged = exchange initial_state tables added_phone start (omega arith) refl

empty-IsCart : IsCart initial_state.cart
empty-IsCart = record { distinct = tt; positive = tt }

Exchanged-IsCart_example :
    IsCart (app_reducer initial_state (action_of added_phone)).cart
    × (quantities (app_reducer initial_state (action_of added_phone)).cart
        ≡ (db.contents (serve_call db "c" added_phone tables).1).cart "c")
Exchanged-IsCart_example =
    Agreement.Exchanged-IsCart db "c" initial_state tables
      (app_reducer initial_state (action_of added_phone)) (serve_call db "c" added_phone tables).1
      empty-IsCart refl exchanged
