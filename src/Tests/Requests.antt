-- ===== src/Tests/Requests.antt =====
-- The operations of the provider against the sample server, and the pages that start them.
use client_server_with_lb_de.Base.{
  String, Bool, ◌==◌, false, List, [], ◌∷◌, some, none, pos, ◌≡◌, ◌≢◌, ◌⊎◌, refl, arith,
}
use client_server_with_lb_de.Types.{Product, Order}
use client_server_with_lb_de.Types.Totals.{cart_total}
use client_server_with_lb_de.Store.{initial_state, app_reducer, dispatch_all}
use client_server_with_lb_de.Api.{
  Payload, one_product, Thrown, resolved, succeeded, failed, request, request_config, Options,
}
use client_server_with_lb_de.Api.Replies
use client_server_with_lb_de.Api.Replies.{Delivers}
use client_server_with_lb_de.Provider.{
  Operation, done, order_placed, threw, shape, run, begin, settle,
}
use client_server_with_lb_de.Provider.Outcomes
use client_server_with_lb_de.Provider.Outcomes.{sent, confirmed}
use client_server_with_lb_de.Provider.Interleaving
use client_server_with_lb_de.Provider.Interleaving.{
  System, Step, start, finish, Reach, here, next, idle, IsSafe,
}
use client_server_with_lb_de.Pages.{handle_order_submit, place_order, order_request}
use client_server_with_lb_de.Pages.Submit
use client_server_with_lb_de.Pages.Submit.{IsSubmittable}
use client_server_with_lb_de.Tests.Samples.{phone, cart, shopping, order_draft, server, filled_form}

request-resolved_example :
    let options : Options = record { method = none; body = none } in
    let reply = server.fetch one_product (request_config none "/api/products/9" options) 4 in
    let result = request server none one_product "/api/products/9" options 4 in
    (result.1 ≡ reply.1)
    × (((value : Product) × Delivers reply.0 value × (result.0 ≡ resolved (succeeded value)))
        ⊎ ((message : String) × ((value : Product) → ¬ Delivers reply.0 value)
            × (result.0 ≡ resolved (failed (some message)))))
request-resolved_example =
    Replies.request-resolved server none one_product "/api/products/9"
      (record { method = none; body = none }) 4

run-load_products_example :
    let ran = run server none Operation.load_products initial_state 0 in
    let reply = (sent server none Operation.load_products 0).0 in
    (ran.completion ≡ done)
    × (((products : List Product) × Delivers reply products
          × (ran.state
              ≡ record initial_state { products = products; loading = false; error = none }))
        ⊎ ((message : String) × (message ≢ "")
            × ((products : List Product) → ¬ Delivers reply products)
            × (ran.state ≡ record initial_state { loading = false; error = some message })))
run-load_products_example = Outcomes.run-load_products server none initial_state 0

run-create_order_example :
    let ran = run server none (Operation.create_order order_draft) shopping 0 in
    let reply = (sent server none (Operation.create_order order_draft) 0).0 in
    ((order : Order) × Delivers reply order
      × (ran.completion ≡ order_placed order)
      × (ran.state ≡ record shopping { orders = order ∷ []; cart = [] }))
    ⊎ ((error : Thrown) × ((order : Order) → ¬ Delivers reply order)
        × (ran.completion ≡ threw error)
        × (ran.state ≡ shopping))
run-create_order_example = Outcomes.run-create_order server none order_draft shopping 0

run-quiet_example :
    let op = Operation.add_to_cart phone (pos 1) in
    let ran = run server none op shopping 0 in
    let reply = (sent server none op 0).0 in
    (ran.completion ≡ done)
    × (((value : Payload (shape op)) × Delivers reply value
          × (ran.state ≡ app_reducer shopping (confirmed op value)))
        ⊎ (((value : Payload (shape op)) → ¬ Delivers reply value) × (ran.state ≡ shopping)))
run-quiet_example =
    Outcomes.run-quiet server none (Operation.add_to_cart phone (pos 1)) shopping 0 tt

-- Two operations at once: the product list arrives after an item was added.
abbrev loading : System
loading = record {
  state = dispatch_all initial_state (begin Operation.load_products);
  flight = Operation.load_products ∷ [];
}

abbrev both : System
both = record {
  state = dispatch_all loading.state (begin (Operation.add_to_cart phone (pos 1)));
  flight = Operation.add_to_cart phone (pos 1) ∷ Operation.load_products ∷ [];
}

abbrev added : System
added = record {
  state =
      dispatch_all both.state
        (settle (Operation.add_to_cart phone (pos 1)) (resolved (succeeded []))).actions;
  flight = Operation.load_products ∷ [];
}

Reach-added : Reach idle added
Reach-added =
    next
      (next (next here (start idle Operation.load_products tt))
        (start loading (Operation.add_to_cart phone (pos 1)) (omega arith)))
      (finish both [] (Operation.load_products ∷ []) (Operation.add_to_cart phone (pos 1))
        (resolved (succeeded [])) refl tt)

Reach-IsSafe_example : IsSafe added
Reach-IsSafe_example = Interleaving.Reach-IsSafe Reach-added

handle_order_submit-cases_example :
    let after = handle_order_submit server none filled_form.form_data shopping 0 in
    let op = Operation.create_order (order_request cart filled_form.form_data) in
    let reply = (sent server none op 0).0 in
    (after.is_processing ≡ false)
    × (((order : Order) × Delivers reply order
          × (after.navigation ≡ some (record { order_id = order.id; total = cart_total cart }))
          × (after.state ≡ record shopping { orders = order ∷ []; cart = [] }))
        ⊎ (((order : Order) → ¬ Delivers reply order)
            × (after.navigation ≡ none)
            × (after.state ≡ shopping)))
handle_order_submit-cases_example =
    Submit.handle_order_submit-cases server none filled_form shopping 0

-- A browser that lets one address pass.
abbrev accepts : String → Bool
accepts text = text == "ada@b.org"

place_order-cases_example :
    let placed = place_order server none accepts filled_form shopping 0 in
    (placed.0.form_data ≡ filled_form.form_data)
    × ((IsSubmittable accepts filled_form shopping
          × (placed.1 ≡ some (handle_order_submit server none filled_form.form_data shopping 0)))
        ⊎ ((¬ IsSubmittable accepts filled_form shopping) × (placed.1 ≡ none)))
place_order-cases_example = Submit.place_order-cases server none accepts filled_form shopping 0
