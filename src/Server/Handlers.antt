-- ===== src/Server/Handlers.antt =====
-- The handlers of server/src/server.js, over a database. What a handler throws goes to its `catch`,
-- which sends one error. Prices are whole numbers of cents on both sides of `parseFloat`, and
-- `createdAt`, which the database's clock sets, is left out.
use Prim.Native.String
use client_server_with_lb_de.Base.{
  ℕ, String, List, [], ◌∷◌, map, reduce, Option, none, some, ℤ, pos, ◌+ℤ◌, ◌*ℤ◌, leb_ℤ, or_else,
  ◌==◌, if◌then◌else◌,
}
use client_server_with_lb_de.Base.Decimal.{decimal}
use client_server_with_lb_de.Types.{Product, CartItem}
use client_server_with_lb_de.Server.{
  OrderRow, OrderItem, CartRow, select_product, select_cart, select_entry, add_to_entry,
  insert_entry, set_entry, delete_entry, delete_cart, select_next_id, insert_order, insert_item,
  select_order, select_items,
}
use client_server_with_lb_de.Server.Database.{Database}

-- An order as the server sends it.
pub record OrderView : Type 0 where
  pub row : OrderRow
  pub items : List OrderItem

-- The JSON value of a response.
pub data ResponseBody : Type 0 where
  product_list : List Product → ResponseBody
  one_product : Product → ResponseBody
  cart : List CartItem → ResponseBody
  order_list : List OrderView → ResponseBody
  one_order : OrderView → ResponseBody
  healthy : String → ResponseBody
  nothing : ResponseBody
  error : String → ResponseBody

-- `sendResponse(res, statusCode, data)`.
pub record ServerResponse : Type 0 where
  pub status : ℕ
  pub body : ResponseBody

-- The parsed bodies of POST /api/cart, PUT /api/cart/:id and POST /api/orders. `none` stands for a
-- body that does not parse.
pub record AddBody : Type 0 where
  pub product_id : String
  pub quantity : ℤ

pub record OrderBody : Type 0 where
  pub customer_name : Option String
  pub customer_email : Option String
  pub customer_address : Option String
  pub customer_phone : Option String

-- `getSessionId`, of the header `x-session-id`.
abbrev pub get_session_id : Option String → String
get_session_id header = or_else header "default-session"

-- `transformProduct`.
abbrev pub transform_product : Product → Product
transform_product row = record {
  id = row.id;
  name = row.name;
  price = row.price;
  description = row.description;
  image = row.image;
  category = row.category;
  in_stock = row.in_stock;
  rating = row.rating;
}

abbrev pub cart_item : CartRow → CartItem
cart_item row = record { product = transform_product row.product; quantity = row.quantity }

-- `sendResponse(res, 200, cart)`.
abbrev pub send_cart : List CartRow → ServerResponse
send_cart rows = record { status = 200; body = cart (map cart_item rows) }

abbrev pub send_error : ℕ → String → ServerResponse
send_error status message = record { status = status; body = error message }

-- `value || null`.
abbrev or_null : Option String → Option String
or_null none = none
or_null (some s) = if s == "" then none else some s

-- `parseFloat(item.price) * item.quantity`.
abbrev pub subtotal_of : CartRow → ℤ
subtotal_of row = row.product.price *ℤ row.quantity

-- A row of the cart as an item of an order.
abbrev pub order_item : CartRow → OrderItem
order_item row = record {
  product_id = row.product.id;
  product_name = row.product.name;
  product_price = row.product.price;
  quantity = row.quantity;
  subtotal = subtotal_of row;
}

-- `cartResult.rows.forEach(item => { totalAmount += … })`.
abbrev pub total_of : List CartRow → ℤ
total_of rows = reduce (λ total row. total +ℤ subtotal_of row) rows (pos 0)

-- The row of the new order.
abbrev pub order_row : String → OrderBody → List CartRow → OrderRow
order_row id body rows = record {
  id = id;
  customer_name = or_null body.customer_name;
  customer_email = or_null body.customer_email;
  customer_address = or_null body.customer_address;
  customer_phone = or_null body.customer_phone;
  status = "pending";
  total_amount = total_of rows;
}

-- `ORD-${next_id}`.
abbrev pub order_id : ℕ → String
order_id next = String.◌++◌ "ORD-" (decimal next)

module _ (db : Database) where
  open db use {Tables, query}

  -- The awaits of a handler: `none` is a rejected promise or another exception.
  abbrev pub Run : Type 0 → Type 0
  Run A = Tables → Option A × Tables

  infixl 5 ◌>>=◌ ◌>>◌
  abbrev pub ◌>>=◌ : {A B : Type 0} → Run A → (A → Run B) → Run B
  ◌>>=◌ m f t = let (r, t') = m t in elim r [ none ↦ (none, t') | some a ↦ f a t' ]

  abbrev pub ◌>>◌ : {B : Type 0} → Run (Unit {0}) → Run B → Run B
  m >> k = m >>= λ _. k

  abbrev pub send : ServerResponse → Run ServerResponse
  send response t = (some response, t)

  -- `JSON.parse(body)`.
  abbrev pub parsed : {A : Type 0} → Option A → Run A
  parsed body t = (body, t)

  -- A `try` block whose `catch` sends an error.
  abbrev pub catching : ℕ → String → Run ServerResponse → Tables → ServerResponse × Tables
  catching status message m t =
      let (r, t') = m t in
      elim r [ none ↦ (send_error status message, t') | some response ↦ (response, t') ]

  -- "Return updated cart".
  abbrev pub return_cart : String → Run ServerResponse
  return_cart session = do rows ← query (select_cart session); send (send_cart rows)

  abbrev pub send_product : List Product → Run ServerResponse
  send_product [] = send (send_error 404 "Product not found")
  send_product (row ∷ _) =
      send (record { status = 200; body = one_product (transform_product row) })

  unfoldable pub get_product : String → Tables → ServerResponse × Tables
  get_product id =
      catching 500 "Failed to fetch product"
        (do rows ← query (select_product id); send_product rows)

  unfoldable pub get_cart : String → Tables → ServerResponse × Tables
  get_cart session = catching 500 "Failed to fetch cart" (return_cart session)

  -- The insertion or the update of POST /api/cart.
  abbrev pub add_item : AddBody → String → List ℤ → Run (Unit {0})
  add_item b session [] = query (insert_entry b.product_id b.quantity session)
  add_item b session (_ ∷ _) = query (add_to_entry b.quantity b.product_id session)

  -- POST /api/cart once the product has been looked up.
  abbrev pub with_product : String → AddBody → List Product → Run ServerResponse
  with_product session b [] = send (send_error 404 "Product not found")
  with_product session b (_ ∷ _) = do
    existing ← query (select_entry b.product_id session)
    add_item b session existing
    return_cart session

  unfoldable pub post_cart : String → Option AddBody → Tables → ServerResponse × Tables
  post_cart session body = catching 400 "Invalid request body" (do
    b ← parsed body
    found ← query (select_product b.product_id)
    with_product session b found)

  -- The removal or the update of PUT /api/cart/:id.
  abbrev pub change_item : String → ℤ → String → Run (Unit {0})
  change_item id quantity session =
      if leb_ℤ quantity (pos 0)
      then query (delete_entry id session)
      else query (set_entry quantity id session)

  unfoldable pub put_item : String → String → Option ℤ → Tables → ServerResponse × Tables
  put_item session id body =
      catching 400 "Invalid request body"
        (do quantity ← parsed body; change_item id quantity session; return_cart session)

  unfoldable pub delete_item : String → String → Tables → ServerResponse × Tables
  delete_item session id =
      catching 500 "Failed to delete cart item"
        (do query (delete_entry id session); return_cart session)

  unfoldable pub clear_cart : String → Tables → ServerResponse × Tables
  clear_cart session =
      catching 500 "Failed to clear cart" (do query (delete_cart session); send (send_cart []))

  -- The loop that creates the order's items.
  unfoldable pub insert_items : String → List CartRow → Run (Unit {0})
  insert_items order_id [] = λ t. (some tt, t)
  insert_items order_id (row ∷ rows) = do
    query (insert_item order_id (order_item row))
    insert_items order_id rows

  abbrev pub view_of : List OrderRow → List OrderItem → Run OrderView
  view_of [] items t = (none, t)
  view_of (row ∷ _) items t = (some (record { row = row; items = items }), t)

  -- "Fetch created order with items": `orderResult.rows[0].id` throws if there is no row.
  abbrev pub fetch_order : String → Run OrderView
  fetch_order id = do
    orders ← query (select_order id)
    items ← query (select_items id)
    view_of orders items

  -- From "Calculate total" on, for a cart that is not empty.
  unfoldable pub place_order : String → OrderBody → List CartRow → Run ServerResponse
  unfolding insert_items
  place_order session body rows = do
    next ← query select_next_id
    query (insert_order (order_row (order_id next) body rows))
    insert_items (order_id next) rows
    query (delete_cart session)
    view ← fetch_order (order_id next)
    send (record { status = 201; body = one_order view })

  -- POST /api/orders once the cart has been read.
  abbrev pub with_rows : String → OrderBody → List CartRow → Run ServerResponse
  with_rows session body [] = send (send_error 400 "Cart is empty")
  with_rows session body (row ∷ more) = place_order session body (row ∷ more)

  unfoldable pub post_order : String → Option OrderBody → Tables → ServerResponse × Tables
  post_order session body = catching 400 "Invalid request body" (do
    order_data ← parsed body
    rows ← query (select_cart session)
    with_rows session order_data rows)

  abbrev pub send_order : String → List OrderRow → Run ServerResponse
  send_order id [] = send (send_error 404 "Order not found")
  send_order id (row ∷ _) = do
    items ← query (select_items id)
    send (record { status = 200; body = one_order (record { row = row; items = items }) })

  unfoldable pub get_order : String → Tables → ServerResponse × Tables
  get_order id =
      catching 500 "Failed to fetch order"
        (do orders ← query (select_order id); send_order id orders)
