-- ===== src/Types.antt =====
-- client/src/types/index.ts: the shop's data. Prices, totals and ratings have two decimals in the
-- database (`DECIMAL(10, 2)`, `DECIMAL(3, 2)`) and are whole numbers of hundredths here.
pub mod Totals
use client_server_with_lb_de.Base.{String, Bool, List, ℤ}

pub record Product : Type 0 where
  pub id : String
  pub name : String
  pub price : ℤ
  pub description : String
  pub image : String
  pub category : String
  pub in_stock : Bool
  pub rating : ℤ

pub record CartItem : Type 0 where
  pub product : Product
  pub quantity : ℤ

pub data OrderStatus : Type 0 where
  pending processing shipped delivered : OrderStatus

-- `Order['customerInfo']`.
pub record CustomerInfo : Type 0 where
  pub first_name : String
  pub last_name : String
  pub email : String
  pub phone : String

-- `Order['shippingAddress']`.
pub record ShippingAddress : Type 0 where
  pub street : String
  pub city : String
  pub state : String
  pub zip_code : String
  pub country : String

pub record Order : Type 0 where
  pub id : String
  pub items : List CartItem
  pub total : ℤ
  pub status : OrderStatus
  pub created_at : String
  pub customer_info : CustomerInfo
  pub shipping_address : ShippingAddress

-- `Omit<Order, 'id' | 'createdAt' | 'status'>`.
pub record OrderDraft : Type 0 where
  pub items : List CartItem
  pub total : ℤ
  pub customer_info : CustomerInfo
  pub shipping_address : ShippingAddress
