-- ===== src/Server/Database.antt =====
-- What server/src/server.js relies on of PostgreSQL, with the tables of server/db/schema.sql: each
-- statement is executed as a whole or fails and changes nothing, and a statement that succeeds
-- answers and changes what SQL says.
use mathlib.Core.List.{Perm}
use client_server_with_lb_de.Base.{
  ℕ, String, Bool, List, [], ◌∷◌, ◌++◌, find, Option, none, some, ℤ, ◌+ℤ◌, ◌+◌, ◌==◌, ◌&&◌,
  if◌then◌else◌, ◌≡◌, ◌≢◌,
}
use client_server_with_lb_de.Types.{Product}
use client_server_with_lb_de.Server.{
  OrderRow, OrderItem, CartRow, Statement, select_products, select_product, select_cart,
  select_entry, add_to_entry, insert_entry, set_entry, delete_entry, delete_cart, select_next_id,
  insert_order, insert_item, select_orders, select_order, select_items, Rows,
}

-- The contents of the tables: the products and orders by id, the quantity of a product in the cart
-- of a session, the items of an order, and the number of orders.
pub record Contents : Type 0 where
  pub products : String → Option Product
  pub cart : String → String → Option ℤ
  pub orders : String → Option OrderRow
  pub order_items : String → List OrderItem
  pub order_count : ℕ

-- A table of carts with one entry given anew.
abbrev pub put_entry :
    (String → String → Option ℤ) → String → String → Option ℤ → String → String → Option ℤ
put_entry cart session product entry s p = if s == session && p == product then entry else cart s p

-- A table of carts without a session's entries.
abbrev pub drop_cart : (String → String → Option ℤ) → String → String → String → Option ℤ
drop_cart cart session s p = if s == session then none else cart s p

-- The contents after a statement that succeeds.
abbrev pub effect : Statement → Contents → Contents
effect (add_to_entry quantity product session) c = record c {
  cart =
      put_entry c.cart session product
        (elim (c.cart session product) [ none ↦ none | some old ↦ some (old +ℤ quantity) ]);
}
effect (insert_entry product quantity session) c = record c {
  cart = put_entry c.cart session product (some quantity);
}
effect (set_entry quantity product session) c = record c {
  cart =
      put_entry c.cart session product
        (elim (c.cart session product) [ none ↦ none | some _ ↦ some quantity ]);
}
effect (delete_entry product session) c = record c { cart = put_entry c.cart session product none }
effect (delete_cart session) c = record c { cart = drop_cart c.cart session }
effect (insert_order row) c = record c {
  orders = λ id. if id == row.id then some row else c.orders id;
  order_count = c.order_count + 1;
}
effect (insert_item order_id item) c = record c {
  order_items = λ id. if id == order_id then c.order_items id ++ item ∷ [] else c.order_items id;
}
effect _ c = c

-- The row of a product in a joined cart.
abbrev pub is_row_of : String → CartRow → Bool
is_row_of id row = row.product.id == id

abbrev pub joined : Contents → String → String → Option CartRow
joined c session id = elim (c.cart session id) [
  | none ↦ none
  | some quantity ↦ elim (c.products id) [
    | none ↦ none
    | some product ↦ some (record { product = product; quantity = quantity })
  ]
]

abbrev pub row_list {ℓ} : {A : Type ℓ} → Option A → List A
row_list none = []
row_list (some a) = a ∷ []

-- What the answer of a statement that succeeds says of the contents before it. Nothing is asked of
-- the order of rows. An entry is inserted only for a product of the catalogue and a session that
-- has none of it, and an order only under an id that
-- no order and, by the foreign key, no item has.
abbrev pub Answers : (q : Statement) → Contents → Rows q → Type 0
Answers (select_product id) c rows = rows ≡ row_list (c.products id)
Answers (select_cart session) c rows =
    (id : String) → find (is_row_of id) rows ≡ joined c session id
Answers (select_entry product session) c rows = rows ≡ row_list (c.cart session product)
Answers select_next_id c next = next ≡ c.order_count + 1
Answers (select_order id) c rows = rows ≡ row_list (c.orders id)
Answers (select_items id) c rows = Perm rows (c.order_items id)
Answers (insert_entry product _ session) c _ =
    (c.products product ≢ none) × (c.cart session product ≡ none)
Answers (insert_order row) c _ = (c.orders row.id ≡ none) × (c.order_items row.id ≡ [])
Answers (select_products _) c rows = Unit
Answers select_orders c rows = Unit
Answers (add_to_entry _ _ _) c _ = Unit
Answers (set_entry _ _ _) c _ = Unit
Answers (delete_entry _ _) c _ = Unit
Answers (delete_cart _) c _ = Unit
Answers (insert_item _ _) c _ = Unit

pub record Database : Type 1 where
  pub Tables : Type 0
  pub contents : Tables → Contents
  pub query : (q : Statement) → Tables → Option (Rows q) × Tables
  pub succeeds :
      (q : Statement) (t : Tables) (rows : Rows q)
      → (query q t).0 ≡ some rows
      → Answers q (contents t) rows × (contents (query q t).1 ≡ effect q (contents t))
  pub fails :
      (q : Statement) (t : Tables) → (query q t).0 ≡ none → contents (query q t).1 ≡ contents t
