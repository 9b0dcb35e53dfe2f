-- ===== src/Server/Endings.antt =====
-- How a handler of server/src/server.js ends that changes the cart and then sends it.
use client_server_with_lb_de.Base.{
  ℕ, String, List, find, Option, none, some, ℤ, pos, ◌+ℤ◌, leb_ℤ, if◌then◌else◌, ◌≡◌, refl, sym,
  ◌∙◌, ap,
}
use client_server_with_lb_de.Server.{CartRow, select_cart}
use client_server_with_lb_de.Server.Database.{
  Contents, Database, put_entry, drop_cart, joined, is_row_of,
}
use client_server_with_lb_de.Server.Steps.{
  failure, success, queried, bind-none, bind-some, catching-none, catching-some,
}
use client_server_with_lb_de.Server.Handlers.{
  ServerResponse, Run, send_cart, send_error, return_cart, catching, ◌>>=◌, send,
}

-- The contents after a quantity of a product is added to a session's cart.
abbrev pub added : String → ℤ → String → Contents → Contents
added product quantity session c = record c {
  cart =
      put_entry c.cart session product
        (some (elim (c.cart session product) [ none ↦ quantity | some old ↦ old +ℤ quantity ]));
}

-- The contents after a quantity is set: one that is not positive removes the product.
abbrev pub changed : String → ℤ → String → Contents → Contents
changed id quantity session c = record c {
  cart = put_entry c.cart session id (
      if leb_ℤ quantity (pos 0)
      then none
      else elim (c.cart session id) [ none ↦ none | some _ ↦ some quantity ]);
}

abbrev pub removed : String → String → Contents → Contents
removed id session c = record c { cart = put_entry c.cart session id none }

abbrev pub cleared : String → Contents → Contents
cleared session c = record c { cart = drop_cart c.cart session }

-- The rows show the cart of a session, joined with the catalogue.
abbrev pub Shows : Contents → String → List CartRow → Type 0
Shows c session rows = (id : String) → find (is_row_of id) rows ≡ joined c session id

module _ (db : Database) (session : String) where
  open db use {Tables, contents, query}

  -- How the `try` block of a handler ends that changes the cart by `change` and then sends the
  -- cart.
  pub data Tried (change : Contents → Contents) (t : Tables) (o : Option ServerResponse × Tables)
      : Type 0 where
    sent_cart :
        (rows : List CartRow) (t' : Tables)
        → o ≡ (some (send_cart rows), t')
        → contents t' ≡ change (contents t)
        → Shows (contents t') session rows
        → Tried change t o
    threw_before : (t' : Tables) → o ≡ (none, t') → contents t' ≡ contents t → Tried change t o
    threw_after :
        (t' : Tables) → o ≡ (none, t') → contents t' ≡ change (contents t) → Tried change t o

  -- A step that changes the contents by `change`, or fails and leaves them.
  pub data Did (change : Contents → Contents) (t : Tables) (o : Option (Unit {0}) × Tables)
      : Type 0 where
    failed : (t' : Tables) → o ≡ (none, t') → contents t' ≡ contents t → Did change t o
    did : (t' : Tables) → o ≡ (some tt, t') → contents t' ≡ change (contents t) → Did change t o

  -- After the change the cart is read and sent.
  pub then_return_cart :
      (change : Contents → Contents) (m : Run db (Unit {0})) (t : Tables)
      → Did change t (m t)
      → Tried change t (◌>>=◌ db m (λ _. return_cart db session) t)
  then_return_cart change m t (failed t' e same) =
      threw_before t' (bind-none db m (λ _. return_cart db session) t t' e) same
  then_return_cart change m t (did t' e changed) =
      let step = bind-some db m (λ _. return_cart db session) t t' tt e in
      elim (queried db (select_cart session) t') [
        | failure t'' e' same ↦
            threw_after t''
              (step
                ∙ bind-none db (query (select_cart session)) (λ rows. send db (send_cart rows)) t'
                    t'' e')
              (same ∙ changed)
        | success rows t'' e' answers same ↦
            sent_cart rows t''
              (step
                ∙ bind-some db (query (select_cart session)) (λ rows. send db (send_cart rows)) t'
                    t'' rows e')
              (same ∙ changed) (λ id. answers id ∙ ap (λ c. joined c session id) (sym same))
      ]

  -- How a handler ends: with the cart, or with the error of its `catch`.
  pub data Ended (change : Contents → Contents) (response : ServerResponse) (t : Tables)
      (o : ServerResponse × Tables) : Type 0 where
    cart_sent :
        (rows : List CartRow)
        → o.0 ≡ send_cart rows
        → contents o.1 ≡ change (contents t)
        → Shows (contents o.1) session rows
        → Ended change response t o
    nothing_done : o.0 ≡ response → contents o.1 ≡ contents t → Ended change response t o
    done_not_sent : o.0 ≡ response → contents o.1 ≡ change (contents t) → Ended change response t o

  pub caught :
      (change : Contents → Contents) (status : ℕ) (message : String) (m : Run db ServerResponse)
      (t : Tables)
      → Tried change t (m t)
      → Ended change (send_error status message) t (catching db status message m t)
  caught change status message m t (sent_cart rows t' e changed shows) =
      let e' = catching-some db status message m t t' (send_cart rows) e in
      rw e' (cart_sent rows refl changed shows)
  caught change status message m t (threw_before t' e same) =
      rw (catching-none db status message m t t' e) (nothing_done refl same)
  caught change status message m t (threw_after t' e changed) =
      rw (catching-none db status message m t t' e) (done_not_sent refl changed)

  -- A handler that makes one change and then sends the cart.
  pub change_and_send :
      (change : Contents → Contents) (status : ℕ) (message : String) (m : Run db (Unit {0}))
      (t : Tables)
      → Did change t (m t)
      → Ended change
          (send_error status message)
          t
          (catching db status message (◌>>=◌ db m (λ _. return_cart db session)) t)
  change_and_send change status message m t d =
      caught change status message (◌>>=◌ db m (λ _. return_cart db session)) t
        (then_return_cart change m t d)

  pub Tried-of_same :
      (change : Contents → Contents) (t t' : Tables) (o : Option ServerResponse × Tables)
      → contents t' ≡ contents t
      → Tried change t' o
      → Tried change t o
  Tried-of_same change t t' o same (sent_cart rows u e done shows) =
      sent_cart rows u e (done ∙ ap change same) shows
  Tried-of_same change t t' o same (threw_before u e kept) = threw_before u e (kept ∙ same)
  Tried-of_same change t t' o same (threw_after u e done) = threw_after u e (done ∙ ap change same)
