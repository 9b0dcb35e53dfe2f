-- ===== src/Tests/Deployed.antt =====
-- A cart operation of the client, answered by the server over a database in memory.
use Prim.Native.String.{len, slice}
use client_server_with_lb_de.Base.{
  String, false, [], ◌∷◌, none, some, pos, ◌++◌, All, ◌==◌, if◌then◌else◌, ◌≡◌, ◌⊎◌, refl, fun_ext,
  arith, eq_iff,
}
use client_server_with_lb_de.Store.{AppState, initial_state}
use client_server_with_lb_de.Store.Basket.{IsPositive}
use client_server_with_lb_de.Types.{Order}
use client_server_with_lb_de.Api.{rejected, other_value, Thrown}
use client_server_with_lb_de.Provider.{run, Operation, order_placed, threw}
use client_server_with_lb_de.Server.Database.{Database}
use client_server_with_lb_de.Server.Endings.{changed}
use client_server_with_lb_de.Server.Memory.{Memory, memory}
use client_server_with_lb_de.Server.Serve.{Platform}
use client_server_with_lb_de.Agreement.{CartCall, quantities}
use client_server_with_lb_de.Deployed.{Link, deployed}
use client_server_with_lb_de.Deployed.Cart
use client_server_with_lb_de.Deployed.Load
use client_server_with_lb_de.Deployed.Ordering
use client_server_with_lb_de.Deployed.Load.{map_option}
use client_server_with_lb_de.Deployed.Calls.{operation_of}
use client_server_with_lb_de.Tests.Samples.{order_draft, phone, backpack}

abbrev platform : Platform
platform = record { to_lower_case = λ s. s; address = "localhost:3001" }

-- The path of an address is what follows the host.
abbrev link : Link
link = record {
  path_of = λ url. slice url (len "http://localhost:9999") (len url);
  search_of = λ url. none;
  other_payload = λ s body. rejected other_value;
}

abbrev db : Database
db = memory phone backpack refl

-- Every session has two phones in its cart.
abbrev tables : Memory
tables = record {
  cart = λ s p. if p == "1" then some (pos 2) else none;
  orders = λ id. none;
  order_items = λ id. [];
  order_count = 0;
  is_down = false;
}

abbrev two_phones : AppState
two_phones = record initial_state { cart = record { product = phone; quantity = pos 2 } ∷ [] }

two_phones-IsPositive : All IsPositive two_phones.cart
two_phones-IsPositive = omega arith

two_phones-agree : quantities two_phones.cart ≡ (λ p. if p == "1" then some (pos 2) else none)
two_phones-agree = fun_ext (λ id. ground (arith, eq_iff "1" id, eq_iff id "1"))

run-operation_of_example :
    let ran =
      run
        (deployed platform db link)
        none
        (operation_of (CartCall.update "1" (pos 5)))
        two_phones
        tables in
    (quantities ran.state.cart ≡ (db.contents ran.world).cart "default-session")
    ⊎ ((ran.state ≡ two_phones)
        × (db.contents ran.world ≡ changed "1" (pos 5) "default-session" (db.contents tables)))
run-operation_of_example =
    Cart.run-operation_of platform db link none (CartCall.update "1" (pos 5)) two_phones tables
      (refl, tt) refl two_phones-IsPositive two_phones-agree

-- The only product that a cart holds is in the catalogue.
tables_refer :
    (id : String)
    → (db.contents tables).products id ≡ none
    → (db.contents tables).cart "default-session" id ≡ none
tables_refer id unknown = ground (arith, eq_iff "1" id, eq_iff id "1")

run-load_cart_quantities_example :
    let ran = run (deployed platform db link) none Operation.load_cart initial_state tables in
    (ran.state ≡ initial_state)
    ⊎ (quantities ran.state.cart ≡ (db.contents ran.world).cart "default-session")
run-load_cart_quantities_example =
    Load.run-load_cart_quantities platform db link none initial_state tables refl tables_refer

run-create_order-deployed_example :
    let ran =
      run (deployed platform db link) none (Operation.create_order order_draft) two_phones tables in
    ((order : Order) × (ran.completion ≡ order_placed order)
      × (ran.state ≡ record two_phones { orders = two_phones.orders ++ order ∷ []; cart = [] })
      × Ordering.IsOrdered platform db link none tables ran.world)
    ⊎ ((error : Thrown) × (ran.completion ≡ threw error) × (ran.state ≡ two_phones))
run-create_order-deployed_example =
    Ordering.run-create_order-deployed platform db link none order_draft two_phones tables refl
