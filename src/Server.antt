-- ===== src/Server.antt =====
-- server/src/server.js: the HTTP server. This module has the statements that it sends to
-- PostgreSQL, what they answer, and a handler's way of running them; the database itself is a
-- parameter (Server/Database.antt).
pub mod Database
pub mod Router
pub mod Paths
pub mod Handlers
pub mod Steps
pub mod Endings
pub mod CartWrites
pub mod Isolation
pub mod Preserved
pub mod Serve
pub mod Orders
pub mod Walk
pub mod Memory
use client_server_with_lb_de.Base.{ℕ, String, List, Option, none, some, ℤ}
use client_server_with_lb_de.Types.{Product, CartItem}

-- One row of `orders`; `id`, the customer's data, `status` and `total_amount`.
pub record OrderRow : Type 0 where
  pub id : String
  pub customer_name : Option String
  pub customer_email : Option String
  pub customer_address : Option String
  pub customer_phone : Option String
  pub status : String
  pub total_amount : ℤ

-- One row of `order_items`, without the order's id.
pub record OrderItem : Type 0 where
  pub product_id : String
  pub product_name : String
  pub product_price : ℤ
  pub quantity : ℤ
  pub subtotal : ℤ

-- One row of a cart joined with its product.
pub record CartRow : Type 0 where
  pub product : Product
  pub quantity : ℤ

-- The SQL statements of the handlers, with their parameters.
pub data Statement : Type 0 where
  select_products : Option String → Statement
  select_product : String → Statement
  select_cart : String → Statement
  select_entry : String → String → Statement
  add_to_entry : ℤ → String → String → Statement
  insert_entry : String → ℤ → String → Statement
  set_entry : ℤ → String → String → Statement
  delete_entry : String → String → Statement
  delete_cart : String → Statement
  select_next_id : Statement
  insert_order : OrderRow → Statement
  insert_item : String → OrderItem → Statement
  select_orders : Statement
  select_order : String → Statement
  select_items : String → Statement

-- What a statement answers: its rows, a count, or nothing.
abbrev pub Rows : Statement → Type 0
Rows (select_products _) = List Product
Rows (select_product _) = List Product
Rows (select_cart _) = List CartRow
Rows (select_entry _ _) = List ℤ
Rows select_next_id = ℕ
Rows select_orders = List OrderRow
Rows (select_order _) = List OrderRow
Rows (select_items _) = List OrderItem
Rows (add_to_entry _ _ _) = Unit
Rows (insert_entry _ _ _) = Unit
Rows (set_entry _ _ _) = Unit
Rows (delete_entry _ _) = Unit
Rows (delete_cart _) = Unit
Rows (insert_order _) = Unit
Rows (insert_item _ _) = Unit
