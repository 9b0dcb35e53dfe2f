-- ===== src/Provider.antt =====
-- client/src/context/AppContext.tsx `AppProvider`: the asynchronous operations. Each dispatches
-- some actions, awaits one call of the API service, and dispatches the rest when that settles, so
-- an operation has a first part (`begin`), a call and a second part (`settle`). What
-- `console.error` prints is left out.
pub mod Outcomes
pub mod Interleaving
use client_server_with_lb_de.Base.{
  String, true, false, List, [], ◌∷◌, Option, none, some, ℤ, or_else,
}
use client_server_with_lb_de.Types.{Product, CartItem, Order, OrderDraft}
use client_server_with_lb_de.Store.{AppState, AppAction, dispatch_all}
use client_server_with_lb_de.Api
use client_server_with_lb_de.Api.{
  Shape, product_list, cart_items, one_order, order_list, Payload, Settled, resolved, rejected,
  ApiResponse, succeeded, failed, Thrown, an_error, Network,
}

-- The operations that the context hands to the pages, with their arguments.
pub data Operation : Type 0 where
  load_products load_cart clear_cart load_orders : Operation
  add_to_cart : Product → ℤ → Operation
  update_cart_item : String → ℤ → Operation
  remove_from_cart : String → Operation
  create_order : OrderDraft → Operation

-- What an operation's own promise settles with.
pub data Completion : Type 0 where
  done : Completion
  order_placed : Order → Completion
  threw : Thrown → Completion

pub record Finish : Type 0 where
  pub actions : List AppAction
  pub completion : Completion

-- The actions before the first `await`.
unfoldable pub begin : Operation → List AppAction
begin load_products = AppAction.set_loading true ∷ AppAction.set_error none ∷ []
begin _ = []

abbrev pub shape : Operation → Shape
shape load_products = product_list
shape load_cart = cart_items
shape clear_cart = cart_items
shape load_orders = order_list
shape (add_to_cart _ _) = cart_items
shape (update_cart_item _ _) = cart_items
shape (remove_from_cart _) = cart_items
shape (create_order _) = one_order

abbrev Reply : Type 0 → Type 0
Reply T = Settled (ApiResponse T)

-- An operation that dispatches on success, and logs any failure.
abbrev quietly : {T : Type 0} → (T → List AppAction) → Reply T → Finish
quietly actions (resolved (succeeded value)) = record { actions = actions value; completion = done }
quietly actions (resolved (failed _)) = record { actions = []; completion = done }
quietly actions (rejected _) = record { actions = []; completion = done }

-- `loadProducts` from the `await` on; the `finally` block comes last on every branch.
settle_load_products : Reply (List Product) → Finish
settle_load_products (resolved (succeeded products)) = record {
  actions = AppAction.set_products products ∷ AppAction.set_loading false ∷ [];
  completion = done;
}
settle_load_products (resolved (failed message)) = record {
  actions =
      AppAction.set_error (some (or_else message "Failed to load products"))
      ∷ AppAction.set_loading false
      ∷ [];
  completion = done;
}
settle_load_products (rejected _) = record {
  actions = AppAction.set_error (some "Failed to load products") ∷ AppAction.set_loading false ∷ [];
  completion = done;
}

-- `createOrder` from the `await` on; its `catch` throws the error again.
settle_create_order : Reply Order → Finish
settle_create_order (resolved (succeeded order)) = record {
  actions = AppAction.add_order order ∷ AppAction.clear_cart ∷ [];
  completion = order_placed order;
}
settle_create_order (resolved (failed message)) = record {
  actions = [];
  completion = threw (an_error (or_else message "Failed to create order"));
}
settle_create_order (rejected error) = record { actions = []; completion = threw error }

-- The actions after the `await`, and how the operation ends.
unfoldable pub settle : (op : Operation) → Reply (Payload (shape op)) → Finish
unfolding settle_load_products settle_create_order
settle load_products reply = settle_load_products reply
settle load_cart reply = quietly (λ cart. AppAction.set_cart cart ∷ []) reply
settle clear_cart reply = quietly (λ _. AppAction.clear_cart ∷ []) reply
settle load_orders reply = quietly (λ orders. AppAction.set_orders orders ∷ []) reply
settle (add_to_cart product quantity) reply =
    quietly (λ _. AppAction.add_to_cart product quantity ∷ []) reply
settle (update_cart_item id quantity) reply =
    quietly (λ _. AppAction.update_cart_item id quantity ∷ []) reply
settle (remove_from_cart id) reply = quietly (λ _. AppAction.remove_from_cart id ∷ []) reply
settle (create_order _) reply = settle_create_order reply

-- The state and the world after an operation, and how it ended.
pub record Ran (World : Type 0) : Type 0 where
  pub state : AppState
  pub completion : Completion
  pub world : World

module _ (n : Network) (vite_api_url : Option String) where
  open n use {World}

  -- The call that an operation awaits.
  unfoldable pub call : (op : Operation) → World → Reply (Payload (shape op)) × World
  call load_products = Api.get_products n vite_api_url
  call load_cart = Api.get_cart n vite_api_url
  call clear_cart = Api.clear_cart n vite_api_url
  call load_orders = Api.get_orders n vite_api_url
  call (add_to_cart product quantity) = Api.add_to_cart n vite_api_url product.id quantity
  call (update_cart_item id quantity) = Api.update_cart_item n vite_api_url id quantity
  call (remove_from_cart id) = Api.remove_from_cart n vite_api_url id
  call (create_order order_data) = Api.create_order n vite_api_url order_data

  -- One operation from its start to its end, with no other in between.
  unfoldable pub run : Operation → AppState → World → Ran World
  run op state world =
      let started = dispatch_all state (begin op) in
      let (reply, world') = call op world in
      let finish = settle op reply in
      record {
        state = dispatch_all started finish.actions;
        completion = finish.completion;
        world = world';
      }
