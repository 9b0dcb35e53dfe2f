-- ===== src/Pages/Submit.antt =====
-- Placing an order on client/src/pages/CheckoutPage.tsx.
use client_server_with_lb_de.Base.{
  String, Bool, List, true, false, arith, ◌≢◌, [], ◌∷◌, ◌++◌, Option, none, some, ◌≡◌, ◌⊎◌, inl,
  inr, refl, ap, sym,
}
use client_server_with_lb_de.Types.{CartItem, Order}
use client_server_with_lb_de.Types.Totals.{cart_total}
use client_server_with_lb_de.Store.{AppState}
use client_server_with_lb_de.Api.{Network}
use client_server_with_lb_de.Api.Replies.{Delivers}
use client_server_with_lb_de.Checkout.{FormState, Field}
use client_server_with_lb_de.Checkout.View.{accepts_form, accepts_form-email}
use client_server_with_lb_de.Checkout.Validation.{Meets, handle_submit-cases}
use client_server_with_lb_de.Provider.{Operation}
use client_server_with_lb_de.Provider.Outcomes.{sent, run-create_order}
use client_server_with_lb_de.Pages.{
  order_request, after_create_order, handle_order_submit, place_order, checkout_view, clicked,
}

-- What it takes to submit the form in a browser that accepts some e-mail addresses.
abbrev pub IsSubmittable : (String → Bool) → FormState → AppState → Type 0
IsSubmittable accepts_email form state =
    (state.cart ≢ [])
    × (accepts_email form.form_data.customer_info.email ≡ true)
    × ((field : Field) → Meets field form.form_data)

module _ (n : Network) (vite_api_url : Option String) where
  -- Submitting an order either navigates to the success page with the id of the order that the
  -- server delivered and the amount of the cart, records the order and empties the cart, or, if the
  -- server delivers none, stays on the page with the state as it was. The page is not processing
  -- afterwards.
  pub handle_order_submit-cases :
      (form : FormState) (state : AppState) (world : n.World)
      → let after = handle_order_submit n vite_api_url form.form_data state world in
        let op = Operation.create_order (order_request state.cart form.form_data) in
        let reply = (sent n vite_api_url op world).0 in
        (after.is_processing ≡ false)
        × (((order : Order) × Delivers reply order
              × (after.navigation
                  ≡ some (record { order_id = order.id; total = cart_total state.cart }))
              × (after.state ≡ record state { orders = state.orders ++ order ∷ []; cart = [] }))
            ⊎ (((order : Order) → ¬ Delivers reply order)
                × (after.navigation ≡ none)
                × (after.state ≡ state)))
  unfolding handle_order_submit after_create_order
  handle_order_submit-cases form state world = (
    refl,
    elim (run-create_order n vite_api_url (order_request state.cart form.form_data) state world) [
      | inl (order, delivered, ended, changed) ↦ inl (order, delivered, rw ended, changed)
      | inr (error, undelivered, ended, same) ↦ inr (undelivered, rw ended, same)
    ],
  )

  module _ (accepts_email : String → Bool) where
    clicked-cases :
        (is_processing : Bool) (items : List CartItem) (accepted : Bool) (form : FormState)
        (state : AppState) (world : n.World)
        → let placed =
            clicked n vite_api_url accepts_email
              (checkout_view is_processing items)
              accepted
              form
              state
              world in
          let Submits =
            (items ≢ []) × (accepted ≡ true) × ((field : Field) → Meets field form.form_data) in
          (placed.0.form_data ≡ form.form_data)
          × ((Submits
                × (placed.1 ≡ some (handle_order_submit n vite_api_url form.form_data state world)))
              ⊎ ((¬ Submits) × (placed.1 ≡ none)))
    unfolding checkout_view
    clicked-cases is_processing [] accepted form state world =
        (refl, inr ((λ submits. submits.0 refl), refl))
    clicked-cases is_processing (item ∷ items) false form state world =
        (refl, inr ((λ submits. absurd ground arith), refl))
    clicked-cases is_processing (item ∷ items) true form state world =
        let (kept, cases) = handle_submit-cases form in
        (
          ap (λ s. s.form_data) kept,
          elim cases [
            | inl (valid, called) ↦
                inl (((λ e. absurd ground arith), refl, valid), rw (called, clicked))
            | inr (invalid, quiet) ↦ inr ((λ submits. invalid submits.2), rw (quiet, clicked))
          ],
        )

    -- "Place Order" submits exactly if the cart is not empty, the browser accepts the text in the
    -- input of type "email", and every field meets its requirement; otherwise nothing is sent. The
    -- form keeps its data.
    pub place_order-cases :
        (form : FormState) (state : AppState) (world : n.World)
        → let placed = place_order n vite_api_url accepts_email form state world in
          (placed.0.form_data ≡ form.form_data)
          × ((IsSubmittable accepts_email form state
                × (placed.1 ≡ some (handle_order_submit n vite_api_url form.form_data state world)))
              ⊎ ((¬ IsSubmittable accepts_email form state) × (placed.1 ≡ none)))
    unfolding place_order
    place_order-cases form state world =
        rw (sym (accepts_form-email accepts_email form))
          (clicked-cases false state.cart (accepts_form accepts_email form) form state world)
