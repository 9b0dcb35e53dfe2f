-- ===== src/Tests/Cart.antt =====
-- The cart's theorems at sample carts.
use client_server_with_lb_de.Base.{
  String, pos, negsuc, ◌+ℤ◌, ◌*ℤ◌, All, ◌≡◌, ◌≢◌, refl, arith, eq_iff,
}
use client_server_with_lb_de.Types.{CartItem}
use client_server_with_lb_de.Types.Totals.{cart_count, cart_total}
use client_server_with_lb_de.Store.{AppAction, app_reducer}
use client_server_with_lb_de.Store.Basket
use client_server_with_lb_de.Store.Basket.{IsPositive, view, basket_step}
use client_server_with_lb_de.Store.Invariant
use client_server_with_lb_de.Store.Invariant.{IsCart, IsDistinct}
use client_server_with_lb_de.Store.Commute
use client_server_with_lb_de.Tests.Samples.{phone, cart, shopping}

cart-IsPositive : All IsPositive cart
cart-IsPositive = omega arith

other_id : ◌≢◌ {A = String} "7" "1"
other_id = ground (arith, eq_iff "7" "1")

cart-IsCart : IsCart cart
cart-IsCart = record { distinct = ((other_id, tt), (tt, tt)); positive = cart-IsPositive }

cart_totals : (cart_count cart ≡ pos 3) × (cart_total cart ≡ pos 127997)
unfolding cart_count cart_total ◌+ℤ◌ ◌*ℤ◌
cart_totals = (refl, refl)

view-app_reducer_example :
    view (app_reducer shopping (AppAction.update_cart_item "1" (negsuc 4))).cart
    ≡ basket_step (view cart) (AppAction.update_cart_item "1" (negsuc 4))
view-app_reducer_example =
    Basket.view-app_reducer shopping (AppAction.update_cart_item "1" (negsuc 4)) cart-IsPositive

app_reducer-IsCart_example :
    IsCart (app_reducer shopping (AppAction.add_to_cart phone (pos 3))).cart
app_reducer-IsCart_example =
    Invariant.app_reducer-IsCart shopping (AppAction.add_to_cart phone (pos 3)) cart-IsCart
      (omega arith)

app_reducer_comm_example :
    view
      (app_reducer
        (app_reducer shopping (AppAction.remove_from_cart "7"))
        (AppAction.add_to_cart phone (pos 3))).cart
    ≡ view
        (app_reducer
          (app_reducer shopping (AppAction.add_to_cart phone (pos 3)))
          (AppAction.remove_from_cart "7")).cart
app_reducer_comm_example =
    Commute.app_reducer_comm shopping (AppAction.remove_from_cart "7")
      (AppAction.add_to_cart phone (pos 3)) "7" "1" cart-IsCart tt (omega arith) refl refl other_id

abbrev two_phones : CartItem
two_phones = record { product = phone; quantity = pos 2 }
