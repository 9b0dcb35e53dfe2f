-- ===== src/Checkout/Fields.antt =====
-- The edits of client/src/components/CheckoutForm.tsx: what an input shows after `updateField`.
use client_server_with_lb_de.Base.{String, if◌then◌else◌, ◌≡◌, arith}
use client_server_with_lb_de.Checkout.{
  OrderData, Field, first_name, last_name, email, phone, street, city, state, zip_code,
  name_on_card, card_number, expiry_date, cvv, update_field,
}
use client_server_with_lb_de.Checkout.Validation.{same_field}

-- The `value` of a field's input.
abbrev pub field_value : Field → OrderData → String
field_value first_name form = form.customer_info.first_name
field_value last_name form = form.customer_info.last_name
field_value email form = form.customer_info.email
field_value phone form = form.customer_info.phone
field_value street form = form.shipping_address.street
field_value city form = form.shipping_address.city
field_value state form = form.shipping_address.state
field_value zip_code form = form.shipping_address.zip_code
field_value name_on_card form = form.payment_method.name_on_card
field_value card_number form = form.payment_method.card_number
field_value expiry_date form = form.payment_method.expiry_date
field_value cvv form = form.payment_method.cvv

-- After an edit the edited field has the new value, every other field its old one, and the country,
-- which no input edits, stays.
field_value-update_field :
    (edited field : Field) (value : String) (form : OrderData)
    → (field_value field (update_field edited value form)
        ≡ (if same_field edited field then value else field_value field form))
      × ((update_field edited value form).shipping_address.country ≡ form.shipping_address.country)
unfolding update_field
field_value-update_field edited field value form = ground arith
