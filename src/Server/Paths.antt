-- ===== src/Server/Paths.antt =====
-- The paths of client/src/services/api.ts against the tests of server/src/server.js: which handler
-- an endpoint of a product reaches.
use Prim.Native.Char.{code}
use Prim.Native.String
use Prim.Native.String.append
use Prim.Native.String.{slice, len}
use text.Mathlib.TextPositions.{starts_with-append, slice-append_left}
use text.Mathlib.TextEquality.{starts_with_iff}
use text.Mathlib.Text.{starts_with}
use client_server_with_lb_de.Base.{
  String, false, List, [], ◌∷◌, ◌++◌, ◌≡◌, ◌≢◌, refl, sym, ◌∙◌, ap, arith, eq_iff, ◌==◌, ◌=ℕ◌,
  Bool-cases, inl, inr, false≢true,
}
use client_server_with_lb_de.Server.Router.{
  split_from, split_step, split_path, id_of, fourth, route, put_item, delete_item,
}

-- No character of the text is a slash.
abbrev pub HasNoSlash : String → Type 0
HasNoSlash String.[] = Unit
HasNoSlash (String.◌∷◌ c s) = ((code c =ℕ b'/') ≡ false) × HasNoSlash s

text_append_assoc :
    (s t u : String) → String.◌++◌ (String.◌++◌ s t) u ≡ String.◌++◌ s (String.◌++◌ t u)
text_append_assoc String.[] t u =
    ap (λ v. String.◌++◌ v u) (append.nil t) ∙ sym (append.nil (String.◌++◌ t u))
text_append_assoc (String.◌∷◌ c s) t u =
    ap (λ v. String.◌++◌ v u) (append.cons c s t)
    ∙ append.cons c (String.◌++◌ s t) u
    ∙ ap (λ v. String.◌∷◌ c v) (text_append_assoc s t u)
    ∙ sym (append.cons c s (String.◌++◌ t u))

text_append-nil : (s : String) → String.◌++◌ s String.[] ≡ s
text_append-nil String.[] = append.nil String.[]
text_append-nil (String.◌∷◌ c s) =
    append.cons c s String.[] ∙ ap (λ v. String.◌∷◌ c v) (text_append-nil s)

split_from-append :
    (p s : String) (state : List String × String)
    → split_from state (String.◌++◌ p s) ≡ split_from (split_from state p) s
unfolding split_from
split_from-append String.[] s state = ap (split_from state) (append.nil s)
split_from-append (String.◌∷◌ c p) s state =
    ap (split_from state) (append.cons c p s) ∙ split_from-append p s (split_step state c)

split_from-no_slash :
    (s : String) (parts : List String) (front : String)
    → HasNoSlash s
    → split_from (parts, front) s ≡ (parts, String.◌++◌ front s)
unfolding split_from split_step
split_from-no_slash String.[] parts front h = ap (λ v. (parts, v)) (sym (text_append-nil front))
split_from-no_slash (String.◌∷◌ c s) parts front (h, hs) = rw h (
    split_from-no_slash s parts (String.◌++◌ front (String.◌∷◌ c String.[])) hs
    ∙ ap (λ v. (parts, v))
        (text_append_assoc front (String.◌∷◌ c String.[]) s
          ∙ ap (λ v. String.◌++◌ front v)
              (append.cons c String.[] s ∙ ap (λ v. String.◌∷◌ c v) (append.nil s))))

-- The id in the path of a product of the cart.
id_of-cart : (id : String) → HasNoSlash id → id_of (String.◌++◌ "/api/cart/" id) ≡ id
unfolding id_of split_path split_from split_step
id_of-cart id h =
    let parts = "" ∷ "api" ∷ "cart" ∷ [] in
    ap (λ state. fourth (state.0 ++ state.1 ∷ []))
      (split_from-append "/api/cart/" id ([], "") ∙ split_from-no_slash id parts "" h)
    ∙ append.nil id

-- A text that begins with `p` is none that does not.
append-ne : (p id t : String) → starts_with t p ≡ false → ((String.◌++◌ p id) == t) ≡ false
append-ne p id t h = elim (Bool-cases ((String.◌++◌ p id) == t)) [
  | inl e ↦
      let same = (eq_iff (String.◌++◌ p id) t).0 e in
      absurd (false≢true (sym h ∙ ap (λ u. starts_with u p) (sym same) ∙ starts_with-append p id))
  | inr e ↦ e
]

-- A text that begins with `p` does not begin with another text as long as `p`.
starts_with-ne :
    (p q r id : String)
    → len p ≡ len q
    → p ≢ q
    → starts_with (String.◌++◌ p id) (String.◌++◌ q r) ≡ false
starts_with-ne p q r id long ne =
    elim (Bool-cases (starts_with (String.◌++◌ p id) (String.◌++◌ q r))) [
      | inl e ↦
          let (rest, same) = (starts_with_iff (String.◌++◌ p id) (String.◌++◌ q r)).0 e in
          absurd (
            ne (
              sym (slice-append_left p id)
              ∙ ap (λ n. slice (String.◌++◌ p id) 0 n) long
              ∙ ap (λ u. slice u 0 (len q)) (sym same ∙ text_append_assoc q r rest)
              ∙ slice-append_left q (String.◌++◌ r rest)))
      | inr e ↦ e
    ]

cart-ne-products : ◌≢◌ {A = String} "/api/cart/" "/api/produ"
cart-ne-products = ground (arith, eq_iff "/api/cart/" "/api/produ")

-- `PUT` and `DELETE` on the path of a product of the cart reach its handlers.
module _ (id : String) (h : HasNoSlash id) where
  abbrev path : String
  path = String.◌++◌ "/api/cart/" id

  route-put : route "PUT" path ≡ put_item id
  unfolding route
  route-put =
      let not_health = append-ne "/api/cart/" id "/api/health" refl in
      let not_products = append-ne "/api/cart/" id "/api/products" refl in
      let not_product = starts_with-ne "/api/cart/" "/api/produ" "cts/" id refl cart-ne-products in
      let not_cart = append-ne "/api/cart/" id "/api/cart" refl in
      let is_item = starts_with-append "/api/cart/" id in
      rw (not_health, not_products, not_product, not_cart, is_item) (ap put_item (id_of-cart id h))

  route-delete : route "DELETE" path ≡ delete_item id
  unfolding route
  route-delete =
      let not_health = append-ne "/api/cart/" id "/api/health" refl in
      let not_products = append-ne "/api/cart/" id "/api/products" refl in
      let not_product = starts_with-ne "/api/cart/" "/api/produ" "cts/" id refl cart-ne-products in
      let not_cart = append-ne "/api/cart/" id "/api/cart" refl in
      let is_item = starts_with-append "/api/cart/" id in
      rw (not_health, not_products, not_product, not_cart, is_item)
        (ap delete_item (id_of-cart id h))

  -- `PUT` and `DELETE` on "/api/cart/" and an id without a slash reach the handlers of a product of
  -- the cart, with that id.
  pub route-cart_item : (route "PUT" path ≡ put_item id) × (route "DELETE" path ≡ delete_item id)
  route-cart_item = (route-put, route-delete)
