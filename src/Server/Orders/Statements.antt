-- ===== src/Server/Orders/Statements.antt =====
-- The statements of `POST /api/orders` of server/src/server.js after it has read the cart, and what
-- the tables hold when all of them have been executed.
use mathlib.Core.List.{Perm, append_assoc, append-nil}
use client_server_with_lb_de.Base.{
  String, List, [], ◌∷◌, ◌++◌, map, none, some, ◌+◌, ◌==◌, if◌then◌else◌, eq_iff, ◌≡◌, refl, sym,
  ◌∙◌, ap, fun_ext, arith, Bool-cases, inl, inr,
}
use client_server_with_lb_de.Server.{
  OrderRow, OrderItem, CartRow, Statement, delete_cart, select_next_id, insert_order, insert_item,
  select_order, select_items,
}
use client_server_with_lb_de.Server.Database.{Contents, effect, drop_cart}
use client_server_with_lb_de.Server.Handlers.{
  ServerResponse, OrderBody, one_order, order_item, order_row, order_id,
}
use client_server_with_lb_de.Server.Walk.{effects, effects-append}

-- The statements of the loop over the rows of the cart.
abbrev pub item_statements : String → List CartRow → List Statement
item_statements id rows = map (λ row. insert_item id (order_item row)) rows

-- Items added to those of an order.
abbrev with_items : String → List OrderItem → Contents → Contents
with_items id items c = record c {
  order_items = λ i. if i == id then c.order_items i ++ items else c.order_items i;
}

with_items-append :
    (id : String) (xs ys : List OrderItem) (c : Contents)
    → with_items id ys (with_items id xs c) ≡ with_items id (xs ++ ys) c
with_items-append id xs ys c =
    ap (λ f. record c { order_items = f })
      (fun_ext (λ i. elim (Bool-cases (i == id)) [
        | inl e ↦ rw e (append_assoc (c.order_items i) xs ys)
        | inr e ↦ rw e refl
      ]))

with_items-nil : (id : String) (c : Contents) → with_items id [] c ≡ c
with_items-nil id c =
    ap (λ f. record c { order_items = f })
      (fun_ext (λ i. elim (Bool-cases (i == id)) [
        | inl e ↦ rw e (append-nil (c.order_items i))
        | inr e ↦ rw e refl
      ]))

effects-item_statements :
    (id : String) (rows : List CartRow) (c : Contents)
    → effects (item_statements id rows) c ≡ with_items id (map order_item rows) c
effects-item_statements id [] c = sym (with_items-nil id c)
effects-item_statements id (row ∷ rows) c =
    effects-item_statements id rows (effect (insert_item id (order_item row)) c)
    ∙ with_items-append id (order_item row ∷ []) (map order_item rows) c

-- The id of the next order.
abbrev pub next_id : Contents → String
next_id c = order_id (c.order_count + 1)

-- The statements after the loop.
abbrev pub closing : String → String → List Statement
closing session id = delete_cart session ∷ select_order id ∷ select_items id ∷ []

-- The statements from "Create order" on.
abbrev pub creation : String → String → OrderBody → List CartRow → List Statement
creation session id body rows =
    insert_order (order_row id body rows) ∷ item_statements id rows ++ closing session id

-- The statements from "Generate order ID" on.
abbrev pub order_statements : String → String → OrderBody → List CartRow → List Statement
order_statements session id body rows = select_next_id ∷ creation session id body rows

-- The contents with a new order whose items are given, and the session's cart emptied.
abbrev pub ordered : String → OrderRow → List OrderItem → Contents → Contents
ordered session row items c = record c {
  cart = drop_cart c.cart session;
  orders = λ i. if i == row.id then some row else c.orders i;
  order_items = λ i. if i == row.id then items else c.order_items i;
  order_count = c.order_count + 1;
}

pub effect-ordered :
    (session id : String) (body : OrderBody) (rows : List CartRow) (c : Contents)
    → c.order_items id ≡ []
    → effect
        (delete_cart session)
        (effects (item_statements id rows) (effect (insert_order (order_row id body rows)) c))
      ≡ ordered session (order_row id body rows) (map order_item rows) c
effect-ordered session id body rows c unused =
    ap (λ d. effect (delete_cart session) d)
      (effects-item_statements id rows (effect (insert_order (order_row id body rows)) c))
    ∙ ap
        (λ f. record (ordered session (order_row id body rows) (map order_item rows) c) {
          order_items = f;
        })
        (fun_ext (λ i. elim (Bool-cases (i == id)) [
          | inl e ↦
              let at : i ≡ id = ground (arith, eq_iff i id) in
              rw (e) (ap (λ l. l ++ map order_item rows) (ap c.order_items at ∙ unused))
          | inr e ↦ rw e refl
        ]))

pub effects-order_statements :
    (session id : String) (body : OrderBody) (rows : List CartRow) (c : Contents)
    → c.order_items id ≡ []
    → effects (order_statements session id body rows) c
      ≡ ordered session (order_row id body rows) (map order_item rows) c
effects-order_statements session id body rows c unused =
    effects-append (item_statements id rows) (closing session id)
      (effect (insert_order (order_row id body rows)) c)
    ∙ effect-ordered session id body rows c unused

-- The response to a new order, and that its id was new.
pub data IsPlaced (id : String) (body : OrderBody) (rows : List CartRow) (c : Contents)
    (response : ServerResponse) : Type 0 where
  is_placed :
      (items : List OrderItem)
      → response ≡ record {
        status = 201;
        body = one_order (record { row = order_row id body rows; items = items });
      }
      → Perm items (map order_item rows)
      → c.orders id ≡ none
      → c.order_items id ≡ []
      → IsPlaced id body rows c response

pub is_unused :
    {id : String} {body : OrderBody} {rows : List CartRow} {c : Contents}
    {response : ServerResponse}
    → IsPlaced id body rows c response
    → c.order_items id ≡ []
is_unused (is_placed _ _ _ _ unused) = unused
