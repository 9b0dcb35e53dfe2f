-- ===== src/Tests/Samples.antt =====
-- Products of server/db/schema.sql, carts, an order, and a server that answers every request.
use client_server_with_lb_de.Base.{
  ℕ, suc, true, false, List, [], ◌∷◌, none, pos, length, units, ◌-ℤ◌,
}
use client_server_with_lb_de.Types.{
  Product, CartItem, Order, OrderDraft, OrderStatus, CustomerInfo, ShippingAddress,
}
use client_server_with_lb_de.Store.{AppState, initial_state}
use client_server_with_lb_de.Api.{
  Shape, product_list, one_product, cart_items, one_order, order_list, health, Payload, Settled,
  resolved, rejected, Response, an_error, Network,
}
use client_server_with_lb_de.Checkout.{FormErrors, FormState, initial_form}
use client_server_with_lb_de.Catalog.{Locale}

abbrev pub phone : Product
phone = record {
  id = "1";
  name = "Smartphone Pro";
  price = pos 59999;
  description = "Latest smartphone";
  image = "phone.png";
  category = "Electronics";
  in_stock = true;
  rating = pos 500;
}

abbrev pub backpack : Product
backpack = record {
  id = "7";
  name = "Backpack";
  price = pos 7999;
  description = "Durable backpack";
  image = "backpack.png";
  category = "Accessories";
  in_stock = false;
  rating = pos 400;
}

abbrev pub cart : List CartItem
cart =
    record { product = phone; quantity = pos 2 }
    ∷ record { product = backpack; quantity = pos 1 }
    ∷ []

abbrev pub shopping : AppState
shopping = record initial_state { products = phone ∷ backpack ∷ []; cart = cart }

abbrev pub customer : CustomerInfo
customer = record { first_name = "Ada"; last_name = "Byron"; email = "ada@b.org"; phone = "" }

abbrev pub address : ShippingAddress
address = record {
  street = "1 Main St";
  city = "Ulm";
  state = "";
  zip_code = "89073";
  country = "US";
}

abbrev pub order_draft : OrderDraft
order_draft = record {
  items = cart;
  total = pos 127997;
  customer_info = customer;
  shipping_address = address;
}

abbrev pub order : Order
order = record {
  id = "ORD-1";
  items = cart;
  total = pos 127997;
  status = OrderStatus.pending;
  created_at = "2024-01-01T00:00:00.000Z";
  customer_info = customer;
  shipping_address = address;
}

abbrev pub no_errors : FormErrors
no_errors = record { customer_info = none; shipping_address = none; payment_method = none }

abbrev pub filled_form : FormState
filled_form = record {
  form_data = record {
    customer_info = customer;
    shipping_address = address;
    payment_method = record {
      card_number = "1234567812345678";
      expiry_date = "12/30";
      cvv = "123";
      name_on_card = "Ada Byron";
    };
  };
  errors = no_errors;
}

abbrev pub empty_form : FormState
empty_form = record { form_data = initial_form; errors = no_errors }

abbrev pub ok : {T : Type 0} → T → Settled (Response T)
ok value = resolved (record { ok = true; status = 200; json = resolved value })

abbrev pub answer : (s : Shape) → Settled (Response (Payload s))
answer product_list = ok (phone ∷ backpack ∷ [])
answer one_product = resolved (record { ok = false; status = 404; json = rejected (an_error "") })
answer cart_items = ok []
answer one_order = ok order
answer order_list = rejected (an_error "Failed to fetch")
answer health = ok (record { status = "healthy"; timestamp = "" })

-- The world counts the requests.
abbrev pub server : Network
server = record { World = ℕ; fetch = λ s request world. (answer s, suc world) }

-- Names compared by their length.
abbrev pub locale : Locale
locale = record {
  to_lower_case = λ s. s;
  locale_compare = λ a b. pos (length (units a)) -ℤ pos (length (units b));
}
