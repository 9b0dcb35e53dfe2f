-- ===== src/Store/Commute.antt =====
-- Cart actions on different products, in either order.
use client_server_with_lb_de.Base.{
  String, ◌≡◌, ◌≢◌, ◌∙◌, sym, ap, subst, inl, inr, String-cases, fun_ext, arith, eq_iff,
}
use client_server_with_lb_de.Store.{
  AppState, AppAction, add_to_cart, update_cart_item, remove_from_cart, app_reducer,
}
use client_server_with_lb_de.Store.Basket.{Basket, view, basket_step, view-app_reducer}
use client_server_with_lb_de.Store.Invariant.{IsCart, IsSoundAction, app_reducer-IsCart}

-- The action adds, changes or removes the one product `id`.
abbrev pub IsAbout : AppAction → String → Type 0
IsAbout (add_to_cart product _) id = product.id ≡ id
IsAbout (update_cart_item changed _) id = changed ≡ id
IsAbout (remove_from_cart removed) id = removed ≡ id
IsAbout _ id = ⊥

-- On the map from ids to items such an action changes one entry.
basket_step_other :
    (action : AppAction) (id j : String) (b : Basket)
    → IsAbout action id
    → id ≢ j
    → basket_step b action j ≡ b j
basket_step_other (add_to_cart product q) id j b h n = ground (arith, eq_iff product.id j)
basket_step_other (update_cart_item changed q) id j b h n = ground (arith, eq_iff changed j)
basket_step_other (remove_from_cart removed) id j b h n = ground (arith, eq_iff removed j)
basket_step_other _ id j b h n = absurd h

-- Its new entry depends on the old one alone.
basket_step_entry :
    (action : AppAction) (id : String) (b c : Basket)
    → IsAbout action id
    → b id ≡ c id
    → basket_step b action id ≡ basket_step c action id
basket_step_entry (add_to_cart product q) id b c h e =
    let same : b product.id ≡ c product.id = subst (λ k. b k ≡ c k) (sym h) e in rw (same, e)
basket_step_entry (update_cart_item changed q) id b c h e = ground (arith, eq_iff changed id)
basket_step_entry (remove_from_cart removed) id b c h e = ground (arith, eq_iff removed id)
basket_step_entry _ id b c h e = absurd h

-- Two actions about different products commute on the map.
basket_step_comm :
    (x y : AppAction) (i j k : String) (b : Basket)
    → IsAbout x i
    → IsAbout y j
    → i ≢ j
    → basket_step (basket_step b x) y k ≡ basket_step (basket_step b y) x k
basket_step_comm x y i j k b hx hy n = elim (String-cases k i) [
  | inl here ↦
      let n' : j ≢ k = λ e. n (sym (e ∙ here)) in
      basket_step_other y j k (basket_step b x) hy n'
      ∙ basket_step_entry x k b (basket_step b y) (subst (IsAbout x) (sym here) hx)
          (sym (basket_step_other y j k b hy n'))
  | inr away ↦ elim (String-cases k j) [
    | inl there ↦
        let n' : i ≢ k = λ e. n (e ∙ there) in
        basket_step_entry y k (basket_step b x) b (subst (IsAbout y) (sym there) hy)
          (basket_step_other x i k b hx n')
        ∙ sym (basket_step_other x i k (basket_step b y) hx n')
    | inr far ↦
        basket_step_other y j k (basket_step b x) hy (λ e. far (sym e))
        ∙ basket_step_other x i k b hx (λ e. away (sym e))
        ∙ sym (
            basket_step_other x i k (basket_step b y) hx (λ e. away (sym e))
            ∙ basket_step_other y j k b hy (λ e. far (sym e)))
  ]
]

-- Cart actions about different products can be applied in either order: both orders give carts that
-- hold the same items, on a well-formed cart and with positive quantities to add.
pub app_reducer_comm :
    (state : AppState) (x y : AppAction) (i j : String)
    → IsCart state.cart
    → IsSoundAction x
    → IsSoundAction y
    → IsAbout x i
    → IsAbout y j
    → i ≢ j
    → view (app_reducer (app_reducer state x) y).cart
      ≡ view (app_reducer (app_reducer state y) x).cart
app_reducer_comm state x y i j c sx sy hx hy n =
    view-app_reducer (app_reducer state x) y (app_reducer-IsCart state x c sx).positive
    ∙ ap (λ b. basket_step b y) (view-app_reducer state x c.positive)
    ∙ fun_ext (λ k. basket_step_comm x y i j k (view state.cart) hx hy n)
    ∙ sym (
        view-app_reducer (app_reducer state y) x (app_reducer-IsCart state y c sy).positive
        ∙ ap (λ b. basket_step b x) (view-app_reducer state y c.positive))
