-- ===== src/Checkout.antt =====
-- client/src/components/CheckoutForm.tsx: the form's data, its fields and its validation.
pub mod Email
pub mod Validation
pub mod Fields
pub mod View
use client_server_with_lb_de.Base.{
  String, Bool, true, false, not, ◌&&◌, ◌||◌, List, [], ◌∷◌, ◌++◌, Option, none, some, length, ltb,
  truthy, units, if◌then◌else◌,
}
use client_server_with_lb_de.Types.{CustomerInfo, ShippingAddress}
use Email.{email_test}

-- `OrderData['paymentMethod']`.
pub record PaymentMethod : Type 0 where
  pub card_number : String
  pub expiry_date : String
  pub cvv : String
  pub name_on_card : String

pub record OrderData : Type 0 where
  pub customer_info : CustomerInfo
  pub shipping_address : ShippingAddress
  pub payment_method : PaymentMethod

-- The pairs of a section and a field that the inputs pass to `updateField`.
pub data Field : Type 0 where
  first_name last_name email phone street city state zip_code : Field
  name_on_card card_number expiry_date cvv : Field

-- The initial `formData`.
abbrev pub initial_form : OrderData
initial_form = record {
  customer_info = record { first_name = ""; last_name = ""; email = ""; phone = "" };
  shipping_address = record { street = ""; city = ""; state = ""; zip_code = ""; country = "US" };
  payment_method = record { card_number = ""; expiry_date = ""; cvv = ""; name_on_card = "" };
}

abbrev update_customer : Field → String → CustomerInfo → CustomerInfo
update_customer first_name value info = record info { first_name = value }
update_customer last_name value info = record info { last_name = value }
update_customer email value info = record info { email = value }
update_customer phone value info = record info { phone = value }
update_customer _ value info = info

abbrev update_shipping : Field → String → ShippingAddress → ShippingAddress
update_shipping street value address = record address { street = value }
update_shipping city value address = record address { city = value }
update_shipping state value address = record address { state = value }
update_shipping zip_code value address = record address { zip_code = value }
update_shipping _ value address = address

abbrev update_payment : Field → String → PaymentMethod → PaymentMethod
update_payment name_on_card value payment = record payment { name_on_card = value }
update_payment card_number value payment = record payment { card_number = value }
update_payment expiry_date value payment = record payment { expiry_date = value }
update_payment cvv value payment = record payment { cvv = value }
update_payment _ value payment = payment

-- `updateField(section, field, value)` on the form's data. A field stands for its section too, so
-- the other two sections have no such field and stay as they are.
unfoldable pub update_field : Field → String → OrderData → OrderData
update_field field value prev = record {
  customer_info = update_customer field value prev.customer_info;
  shipping_address = update_shipping field value prev.shipping_address;
  payment_method = update_payment field value prev.payment_method;
}

-- The messages of one section of `errors`, each under its field.
abbrev pub SectionErrors : Type 0
SectionErrors = List (Field × String)

-- `Partial<OrderData>` as the form uses it: a section is absent or holds messages.
pub record FormErrors : Type 0 where
  pub customer_info : Option SectionErrors
  pub shipping_address : Option SectionErrors
  pub payment_method : Option SectionErrors

-- `if (bad) newErrors.section = { ...newErrors.section, [field]: message }`. A section that is not
-- there spreads to nothing, and each field of it is set once.
abbrev report : Bool → Field → String → Option SectionErrors → Option SectionErrors
report false field message errors = errors
report true field message none = some ((field, message) ∷ [])
report true field message (some errors) = some (errors ++ (field, message) ∷ [])

unfoldable pub customer_errors : CustomerInfo → Option SectionErrors
customer_errors info =
    let no_first = report (not (truthy info.first_name)) first_name "First name is required" none in
    let no_last = report (not (truthy info.last_name)) last_name "Last name is required" no_first in
    report (not (truthy info.email) || not (email_test info.email)) email "Valid email is required"
      no_last

unfoldable pub shipping_errors : ShippingAddress → Option SectionErrors
shipping_errors address =
    let no_street = report (not (truthy address.street)) street "Street address is required" none in
    let no_city = report (not (truthy address.city)) city "City is required" no_street in
    report (not (truthy address.zip_code)) zip_code "ZIP code is required" no_city

unfoldable pub payment_errors : PaymentMethod → Option SectionErrors
payment_errors payment =
    let bad_card =
      report (not (truthy payment.card_number) || ltb (length (units payment.card_number)) 16)
        card_number "Valid card number is required" none in
    report (not (truthy payment.cvv) || ltb (length (units payment.cvv)) 3) cvv
      "Valid CVV is required" bad_card

abbrev is_absent : Option SectionErrors → Bool
is_absent none = true
is_absent (some _) = false

-- `Object.keys(newErrors).length === 0`.
abbrev no_errors : FormErrors → Bool
no_errors errors =
    is_absent errors.customer_info
    && is_absent errors.shipping_address
    && is_absent errors.payment_method

-- `validateForm`: the errors that it sets, and its result.
unfoldable pub validate_form : OrderData → FormErrors × Bool
unfolding customer_errors shipping_errors payment_errors
validate_form form =
    let new_errors : FormErrors = record {
      customer_info = customer_errors form.customer_info;
      shipping_address = shipping_errors form.shipping_address;
      payment_method = payment_errors form.payment_method;
    } in
    (new_errors, no_errors new_errors)

-- The form's state: `formData` and `errors`.
pub record FormState : Type 0 where
  pub form_data : OrderData
  pub errors : FormErrors

-- `handleSubmit`: the new state, and the data that `onSubmit` is called with, if it is.
unfoldable pub handle_submit : FormState → FormState × Option OrderData
handle_submit s =
    let (new_errors, valid) = validate_form s.form_data in
    (record s { errors = new_errors }, if valid then some s.form_data else none)
