-- ===== src/Server/Isolation.antt =====
-- What no request to server/src/server.js changes: the carts of other sessions, the catalogue, the
-- orders that are stored, with their items; and, for a GET request, anything.
use client_server_with_lb_de.Base.{
  List, String, true, false, Option, none, some, ℤ, ◌==◌, ◌≡◌, refl, sym, ◌∙◌, ap, arith, eq_iff,
  Bool-cases, inl, inr,
}
use client_server_with_lb_de.Server.{OrderRow, CartRow, insert_order}
use client_server_with_lb_de.Server.Database.{Contents, Database, effect, put_entry}
use client_server_with_lb_de.Server.Router.{route}
use client_server_with_lb_de.Server.Handlers.{get_session_id, OrderBody, order_row}
use client_server_with_lb_de.Server.Serve.{ServerRequest, Platform, serve}
use client_server_with_lb_de.Server.Preserved.{Invariance}
use client_server_with_lb_de.Server.Preserved.Placing.{
  fill_order, fill_order-Keeps, place_order-Keeps, place_order-Keeps_new,
}
use client_server_with_lb_de.Server.Preserved.Writes.{
  IsKept, handle-Keeps, handle_read-Keeps, is_read,
}

-- A session's cart and the catalogue stay as they are.
abbrev SameFor : String → Contents → Contents → Type 0
SameFor s c d = ((p : String) → d.cart s p ≡ c.cart s p) × (d.products ≡ c.products)

abbrev same_for : String → Invariance
same_for s = record {
  R = SameFor s;
  same = λ c. ((λ p. refl), refl);
  trans = λ c d e x y. ((λ p. y.0 p ∙ x.0 p), y.1 ∙ x.1);
}

module _ (s session : String) (other : (s == session) ≡ false) where
  put_entry-other :
      (cart : String → String → Option ℤ) (product : String) (entry : Option ℤ) (p : String)
      → put_entry cart session product entry s p ≡ cart s p
  put_entry-other cart product entry p = ground arith

  other_session : (db : Database) → IsKept db (same_for s) session
  other_session db = record {
    add_to_entry_kept = λ n p c _ _. (put_entry-other c.cart p _, refl);
    insert_entry_kept = λ p n c _ _. (put_entry-other c.cart p _, refl);
    set_entry_kept = λ n p c _ _. (put_entry-other c.cart p _, refl);
    delete_entry_kept = λ p c _ _. (put_entry-other c.cart p _, refl);
    delete_cart_kept = λ c _ _. (λ p. rw other refl, refl);
    place_order_kept = λ body rows.
        place_order-Keeps db (same_for s) session body rows (λ row c _ _. (λ p. refl, refl))
          (λ id row c _ _. (λ p. refl, refl)) (λ c _ _. (λ p. rw other refl, refl));
  }

-- An order that is stored stays as it is, and so do its items.
abbrev KeepsOrder : String → OrderRow → Contents → Contents → Type 0
KeepsOrder id row c d =
    c.orders id ≡ some row → (d.orders id ≡ some row) × (d.order_items id ≡ c.order_items id)

abbrev keeps_order : String → OrderRow → Invariance
keeps_order id row = record {
  R = KeepsOrder id row;
  same = λ c h. (h, refl);
  trans = λ c d e x y h.
      let (stored, items) = x h in let (stored', items') = y stored in (stored', items' ∙ items);
}

-- The row and the items under an order id stay as they are.
abbrev SameOrder : String → Contents → Contents → Type 0
SameOrder id c d = (d.orders id ≡ c.orders id) × (d.order_items id ≡ c.order_items id)

abbrev same_order : String → Invariance
same_order id = record {
  R = SameOrder id;
  same = λ c. (refl, refl);
  trans = λ c d e x y. (y.0 ∙ x.0, y.1 ∙ x.1);
}

-- Nothing changes.
abbrev unchanged : Invariance
unchanged = record { R = λ c d. d ≡ c; same = λ c. refl; trans = λ c d e x y. y ∙ x }

-- The id of an order that is stored is not one that is not in use.
stored-other :
    (id new : String) (row : OrderRow) (c : Contents)
    → c.orders new ≡ none
    → c.orders id ≡ some row
    → (id == new) ≡ false
stored-other id new row c unused h = elim (Bool-cases (id == new)) [
  | inl e ↦
      let at : id ≡ new = ground (arith, eq_iff id new) in
      let clash : none ≡ some row = sym unused ∙ sym (ap c.orders at) ∙ h in absurd ground arith
  | inr e ↦ e
]

module _ (db : Database) (id : String) (row : OrderRow) (session : String) where
  open db use {Tables, contents}

  -- After the row of a new order is inserted.
  filled-KeepsOrder :
      (body : OrderBody) (rows : List CartRow) (new : String) (c : Contents) (t : Tables)
      → c.orders new ≡ none
      → contents t ≡ effect (insert_order (order_row new body rows)) c
      → KeepsOrder id row c (contents (fill_order db session new rows t).1)
  filled-KeepsOrder body rows new c t unused made h =
      let other : (id == new) ≡ false = stored-other id new row c unused h in
      let (orders, items) =
        (fill_order-Keeps db (same_order id) session new rows (λ _ _ _ _. (refl, rw other refl))
            (λ _ _ _. (refl, refl))).kept
          t in
      (orders ∙ ap (λ d. d.orders id) made ∙ rw other h, items ∙ ap (λ d. d.order_items id) made)

  stored_order : IsKept db (keeps_order id row) session
  stored_order = record {
    add_to_entry_kept = λ n p c _ _ h. (h, refl);
    insert_entry_kept = λ p n c _ _ h. (h, refl);
    set_entry_kept = λ n p c _ _ h. (h, refl);
    delete_entry_kept = λ p c _ _ h. (h, refl);
    delete_cart_kept = λ c _ _ h. (h, refl);
    place_order_kept = λ body rows.
        place_order-Keeps_new db (keeps_order id row) session body rows
          (filled-KeepsOrder body rows);
  }

route-is_read : (path : String) → is_read (route "GET" path) ≡ true
unfolding route
route-is_read path = ground arith

module _ (platform : Platform) (db : Database) (r : ServerRequest) where
  open db use {Tables, contents}

  serve-SameFor :
      (s : String) (t : Tables)
      → (s == get_session_id r.session_header) ≡ false
      → SameFor s (contents t) (contents (serve platform db r t).1)
  unfolding serve
  serve-SameFor s t other =
      (handle-Keeps db (same_for s) platform (route r.method r.path) r
          (other_session s _ other db)).kept
        t

  -- No request changes the cart of a session that is not its own, or the catalogue.
  pub serve-other_session :
      (s p : String) (t : Tables)
      → (s == get_session_id r.session_header) ≡ false
      → ((contents (serve platform db r t).1).cart s p ≡ (contents t).cart s p)
        × ((contents (serve platform db r t).1).products ≡ (contents t).products)
  serve-other_session s p t other =
      let (carts, catalogue) = serve-SameFor s t other in (carts p, catalogue)

  -- No request changes or removes an order that is stored, or an item of it, or adds an item to it.
  pub serve-stored_order :
      (id : String) (row : OrderRow) (t : Tables)
      → (contents t).orders id ≡ some row
      → ((contents (serve platform db r t).1).orders id ≡ some row)
        × ((contents (serve platform db r t).1).order_items id ≡ (contents t).order_items id)
  unfolding serve
  serve-stored_order id row t =
      (handle-Keeps db (keeps_order id row) platform (route r.method r.path) r
          (stored_order db id row _)).kept
        t

  -- A GET request changes nothing in the tables.
  pub serve-get : (t : Tables) → r.method ≡ "GET" → contents (serve platform db r t).1 ≡ contents t
  unfolding serve
  serve-get t e =
      (handle_read-Keeps db unchanged platform (route r.method r.path) r
          (rw e (route-is_read r.path))).kept
        t
