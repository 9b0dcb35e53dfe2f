-- ===== src/Server/CartWrites.antt =====
-- What the cart handlers of server/src/server.js do to the tables, and what they send.
use client_server_with_lb_de.Base.{
  String, List, [], ◌∷◌, none, some, ℤ, pos, leb_ℤ, eq_iff, ◌≡◌, ◌⊎◌, inl, inr, refl, sym, ◌∙◌, ap,
  subst, arith, ◌≢◌, Bool-cases, Option-cases,
}
use client_server_with_lb_de.Types.{Product}
use client_server_with_lb_de.Server.{
  CartRow, select_cart, select_product, select_entry, add_to_entry, insert_entry, set_entry,
  delete_entry, delete_cart,
}
use client_server_with_lb_de.Server.Database.{Contents, Database, joined, row_list}
use client_server_with_lb_de.Server.Steps.{
  failure, success, queried, bind-none, bind-some, catching-none, catching-some,
}
use client_server_with_lb_de.Server.Handlers.{
  get_cart, AddBody, send_cart, send_error, return_cart, add_item, with_product, change_item,
  post_cart, put_item, delete_item, clear_cart, ◌>>=◌, send,
}
use client_server_with_lb_de.Server.Endings.{
  Shows, added, changed, removed, cleared, Did, failed, did, Tried, threw_before, Ended, cart_sent,
  nothing_done, then_return_cart, change_and_send, caught, Tried-of_same,
}

module _ (db : Database) (session : String) where
  open db use {Tables, contents, query}

  -- `DELETE /api/cart/:id` removes the product from the session's cart and sends the cart as it is
  -- then, or sends an error.
  pub delete_item-Ended :
      (id : String) (t : Tables)
      → Ended db session
          (removed id session)
          (send_error 500 "Failed to delete cart item")
          t
          (delete_item db session id t)
  unfolding delete_item
  delete_item-Ended id t =
      change_and_send db session (removed id session) 500 "Failed to delete cart item"
        (query (delete_entry id session)) t
        (elim (queried db (delete_entry id session) t) [
          | failure t' e same ↦ failed t' e same
          | success rows t' e answers change ↦ did t' e change
        ])

  change_item-Did :
      (id : String) (quantity : ℤ) (t : Tables)
      → Did db session (changed id quantity session) t (change_item db id quantity session t)
  change_item-Did id quantity t = elim (Bool-cases (leb_ℤ quantity (pos 0))) [
    | inl gone ↦ rw gone (elim (queried db (delete_entry id session) t) [
      | failure t' e same ↦ failed t' e same
      | success rows t' e answers change ↦ did t' e (change ∙ rw gone)
    ])
    | inr kept ↦ rw kept (elim (queried db (set_entry quantity id session) t) [
      | failure t' e same ↦ failed t' e same
      | success rows t' e answers change ↦ did t' e (change ∙ rw kept)
    ])
  ]

  -- `PUT /api/cart/:id` with a parsed body sets the quantity of a product that the session's cart
  -- holds, or removes the product if the quantity is not positive, and sends the cart as it is
  -- then; or it sends an error.
  pub put_item-Ended :
      (id : String) (quantity : ℤ) (t : Tables)
      → Ended db session
          (changed id quantity session)
          (send_error 400 "Invalid request body")
          t
          (put_item db session id (some quantity) t)
  unfolding put_item
  put_item-Ended id quantity t =
      change_and_send db session (changed id quantity session) 400 "Invalid request body"
        (change_item db id quantity session) t (change_item-Did id quantity t)

  -- `DELETE /api/cart` empties the session's cart and sends an empty cart, or sends an error.
  pub clear_cart-Ended :
      (t : Tables)
      → Ended db session
          (cleared session)
          (send_error 500 "Failed to clear cart")
          t
          (clear_cart db session t)
  unfolding clear_cart
  clear_cart-Ended t = elim (queried db (delete_cart session) t) [
    | failure t' e same ↦
        rw
          (catching-none db 500 "Failed to clear cart"
            (◌>>=◌ db (query (delete_cart session)) (λ _. send db (send_cart []))) t t'
            (bind-none db (query (delete_cart session)) (λ _. send db (send_cart [])) t t' e))
          (nothing_done refl same)
    | success rows t' e answers change ↦
        rw
          (catching-some db 500 "Failed to clear cart"
            (◌>>=◌ db (query (delete_cart session)) (λ _. send db (send_cart []))) t t'
            (send_cart [])
            (bind-some db (query (delete_cart session)) (λ _. send db (send_cart [])) t t' rows e))
          (cart_sent [] refl change (λ id.
            sym (ap (λ c. joined c session id) change ∙ ground (arith, eq_iff session session))))
  ]

  abbrev added_by : AddBody → Contents → Contents
  added_by b = added b.product_id b.quantity session

  add_item-Did :
      (b : AddBody) (existing : List ℤ) (t : Tables)
      → existing ≡ row_list ((contents t).cart session b.product_id)
      → Did db session (added_by b) t (add_item db b session existing t)
  add_item-Did b [] t listed =
      let new : (contents t).cart session b.product_id ≡ none = ground arith in
      elim (queried db (insert_entry b.product_id b.quantity session) t) [
        | failure t' e same ↦ failed t' e same
        | success rows t' e answers change ↦ did t' e (change ∙ rw new)
      ]
  add_item-Did b (q ∷ qs) t listed =
      let old : (contents t).cart session b.product_id ≡ some q = ground arith in
      elim (queried db (add_to_entry b.quantity b.product_id session) t) [
        | failure t' e same ↦ failed t' e same
        | success rows t' e answers change ↦ did t' e (change ∙ rw old)
      ]

  with_product-Tried :
      (b : AddBody) (product : Product) (more : List Product) (t : Tables)
      → Tried db session (added_by b) t (with_product db session b (product ∷ more) t)
  with_product-Tried b product more t =
      let rest = λ (existing : List ℤ).
        ◌>>=◌ db (add_item db b session existing) (λ _. return_cart db session) in
      elim (queried db (select_entry b.product_id session) t) [
        | failure t' e same ↦
            threw_before t' (bind-none db (query (select_entry b.product_id session)) rest t t' e)
              same
        | success rows t' e answers same ↦
            subst (Tried db session (added_by b) t)
              (sym (bind-some db (query (select_entry b.product_id session)) rest t t' rows e))
              (Tried-of_same db session (added_by b) t t' (rest rows t') same (
                then_return_cart db session (added_by b) (add_item db b session rows) t' (
                  add_item-Did b rows t'
                    (answers ∙ ap (λ c. row_list (c.cart session b.product_id)) (sym same)))))
      ]

  -- `POST /api/cart` with a parsed body, as the catalogue decides. If the product is in the
  -- catalogue, its quantity in the session's cart grows by the body's, from nothing if it was not
  -- there, and the cart is sent as it is then; or error 400 is sent, with the quantity grown or
  -- with nothing changed. If the product is not in the catalogue, the tables stay as they are and
  -- the answer is 404 (or error 400).
  pub post_cart-Ended :
      (b : AddBody) (t : Tables)
      → let o = post_cart db session (some b) t in
        let listed = (contents t).products b.product_id in
        ((listed ≢ none)
          × Ended db session (added_by b) (send_error 400 "Invalid request body") t o)
        ⊎ ((listed ≡ none)
            × (contents o.1 ≡ contents t)
            × ((o.0 ≡ send_error 404 "Product not found")
                ⊎ (o.0 ≡ send_error 400 "Invalid request body")))
  unfolding post_cart
  post_cart-Ended b t =
      let first = query (select_product b.product_id) in
      let whole = ◌>>=◌ db first (with_product db session b) in
      elim (queried db (select_product b.product_id) t) [
        | failure t' e same ↦
            let sent =
              catching-none db 400 "Invalid request body" whole t t'
                (bind-none db first (with_product db session b) t t' e) in
            elim (Option-cases ((contents t).products b.product_id)) [
              | inl absent ↦ inr (absent, rw sent same, rw sent (inr refl))
              | inr (product, present) ↦
                  inl (λ e. absurd ground arith, rw sent (nothing_done refl same))
            ]
        | success [] t' e answers same ↦
            let sent =
              catching-some db 400 "Invalid request body" whole t t'
                (send_error 404 "Product not found")
                (bind-some db first (with_product db session b) t t' [] e) in
            inr (ground arith, rw sent same, rw sent (inl refl))
        | success (product ∷ more) t' e answers same ↦ inl (
          λ e. let clash : product ∷ more ≡ [] = answers ∙ ap row_list e in absurd ground arith,
          caught db session (added_by b) 400 "Invalid request body" whole t (
              subst (Tried db session (added_by b) t)
                (sym (bind-some db first (with_product db session b) t t' (product ∷ more) e))
                (Tried-of_same db session (added_by b) t t' _ same
                  (with_product-Tried b product more t'))),
        )
      ]

  -- `GET /api/cart` sends the session's cart, or an error.
  pub get_cart-Shows :
      (t : Tables)
      → ((rows : List CartRow) × ((get_cart db session t).0 ≡ send_cart rows)
          × Shows (contents t) session rows)
        ⊎ ((get_cart db session t).0 ≡ send_error 500 "Failed to fetch cart")
  unfolding get_cart
  get_cart-Shows t =
      let reading = query (select_cart session) in
      let sending = λ (rows : List CartRow). send db (send_cart rows) in
      elim (queried db (select_cart session) t) [
        | failure t' e same ↦ inr (
            ap (λ o. o.0)
              (catching-none db 500 "Failed to fetch cart" (return_cart db session) t t'
                (bind-none db reading sending t t' e)))
        | success rows t' e shows same ↦ inl (
          rows,
          ap (λ o. o.0)
              (catching-some db 500 "Failed to fetch cart" (return_cart db session) t t'
                (send_cart rows) (bind-some db reading sending t t' rows e)),
          shows,
        )
      ]
