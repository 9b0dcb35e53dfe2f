-- ===== src/Pages.antt =====
-- client/src/pages/CheckoutPage.tsx and OrderSuccessPage.tsx: placing an order, from the form to
-- the page that confirms it.
pub mod Submit
pub mod Mount
pub mod Resting
pub mod Polling
use Prim.Native.String
use client_server_with_lb_de.Base.{
  String, Bool, true, false, List, [], ◌∷◌, Option, none, some, ℤ, truthy, if◌then◌else◌,
}
use client_server_with_lb_de.Base.Decimal.{to_fixed2}
use client_server_with_lb_de.Types.{CartItem, Order, OrderDraft}
use client_server_with_lb_de.Types.Totals.{cart_total}
use client_server_with_lb_de.Store.{AppState}
use client_server_with_lb_de.Api.{Network}
use client_server_with_lb_de.Checkout.{OrderData, FormState, handle_submit}
use client_server_with_lb_de.Checkout.View.{accepts_form}
use client_server_with_lb_de.Provider.{Operation, Completion, done, order_placed, threw, Ran, run}

-- The `state` of the navigation to "/order-success".
pub record SuccessState : Type 0 where
  pub order_id : String
  pub total : ℤ

-- CheckoutPage: what is shown. The form gets the cart and the total.
pub data CheckoutView : Type 0 where
  empty_cart_checkout : CheckoutView
  checkout_page : Bool → List CartItem → ℤ → CheckoutView

unfoldable pub checkout_view : Bool → List CartItem → CheckoutView
checkout_view is_processing [] = empty_cart_checkout
checkout_view is_processing (item ∷ items) =
    checkout_page is_processing (item ∷ items) (cart_total (item ∷ items))

-- The argument of `createOrder` in `handleOrderSubmit`.
abbrev pub order_request : List CartItem → OrderData → OrderDraft
order_request cart order_data = record {
  items = cart;
  total = cart_total cart;
  customer_info = order_data.customer_info;
  shipping_address = order_data.shipping_address;
}

-- After `await createOrder(…)`: the navigation of the `try` block, or none after the `catch`.
unfoldable pub after_create_order : Completion → ℤ → Option SuccessState
after_create_order (order_placed order) total = some (record { order_id = order.id; total = total })
after_create_order (threw _) total = none
after_create_order done total = none

-- The page after `handleOrderSubmit`: its `isProcessing`, the navigation, the context's state and
-- the world.
pub record Submitted (World : Type 0) : Type 0 where
  pub is_processing : Bool
  pub navigation : Option SuccessState
  pub state : AppState
  pub world : World

-- OrderSuccessPage: the order's details, if there is an order id.
pub data SuccessView : Type 0 where
  no_details : SuccessView
  details : String → String → SuccessView

-- `total?.toFixed(2) || '0.00'` is never empty where there is a total.
unfoldable pub success_view : Option SuccessState → SuccessView
success_view none = no_details
success_view (some s) =
    if truthy s.order_id
    then details s.order_id (String.◌++◌ "$" (to_fixed2 s.total))
    else no_details

module _ (n : Network) (vite_api_url : Option String) where
  open n use {World}

  -- `handleOrderSubmit`; `isProcessing` is set before the `await` and reset in the `finally` block.
  unfoldable pub handle_order_submit : OrderData → AppState → World → Submitted World
  handle_order_submit order_data state world =
      let total = cart_total state.cart in
      let ran =
        run n vite_api_url (Operation.create_order (order_request state.cart order_data)) state
          world in
      record {
        is_processing = false;
        navigation = after_create_order ran.completion total;
        state = ran.state;
        world = ran.world;
      }

  module _ (accepts_email : String → Bool) where
    -- "Place Order" in a view of the page; the Boolean says whether the browser lets the form
    -- through, and only then it calls `handleSubmit`.
    abbrev pub clicked :
        CheckoutView → Bool → FormState → AppState → World → FormState × Option (Submitted World)
    clicked empty_cart_checkout accepted form state world = (form, none)
    clicked (checkout_page _ _ _) false form state world = (form, none)
    clicked (checkout_page _ _ _) true form state world =
        let (form', submitted) = handle_submit form in
        (
          form',
          elim submitted [
            | none ↦ none
            | some order_data ↦ some (handle_order_submit order_data state world)
          ],
        )

    -- "Place Order" on the page that is not processing: no form without a cart; else the browser's
    -- check, the form's validation, and `onSubmit` if both pass.
    unfoldable pub place_order : FormState → AppState → World → FormState × Option (Submitted World)
    place_order form state world =
        clicked (checkout_view false state.cart) (accepts_form accepts_email form) form state world
