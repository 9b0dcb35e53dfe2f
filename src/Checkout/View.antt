-- ===== src/Checkout/View.antt =====
-- The inputs of client/src/components/CheckoutForm.tsx, and which of them the browser checks before
-- it calls `handleSubmit`. Icons, class names for the layout and the order summary are left out.
use client_server_with_lb_de.Base.{
  String, Bool, true, ◌&&◌, List, [], ◌∷◌, Option, none, some, ◌≡◌, refl, inl, inr, Bool-cases,
}
use client_server_with_lb_de.Checkout.{
  Field, first_name, last_name, email, phone, street, city, state, zip_code, name_on_card,
  card_number, expiry_date, cvv, FormState,
}
use client_server_with_lb_de.Checkout.Validation.{error_of}
use client_server_with_lb_de.Checkout.Fields.{field_value}

-- The `type` of an input.
pub data InputType : Type 0 where
  text tel email_address : InputType

-- A label with its input; `error` is the message beside it, with which the input is marked too, and
-- `field` is what its `onChange` edits.
pub record FormInput : Type 0 where
  pub label : String
  pub input_type : InputType
  pub field : Field
  pub value : String
  pub placeholder : Option String
  pub error : Option String

-- An input that shows the error of its field, and one that shows none.
abbrev checked_input : FormState → String → InputType → Field → Option String → FormInput
checked_input s label input_type field placeholder = record {
  label = label;
  input_type = input_type;
  field = field;
  value = field_value field s.form_data;
  placeholder = placeholder;
  error = error_of field s.errors;
}

abbrev plain_input : FormState → String → InputType → Field → Option String → FormInput
plain_input s label input_type field placeholder =
    record (checked_input s label input_type field placeholder) { error = none }

-- The three sections under their headings.
abbrev customer_section : FormState → List FormInput
customer_section s =
    checked_input s "First Name" text first_name none
    ∷ checked_input s "Last Name" text last_name none
    ∷ checked_input s "Email" email_address email none
    ∷ plain_input s "Phone" tel phone none
    ∷ []

abbrev shipping_section : FormState → List FormInput
shipping_section s =
    checked_input s "Street Address" text street none
    ∷ checked_input s "City" text city none
    ∷ plain_input s "State" text state none
    ∷ checked_input s "ZIP Code" text zip_code none
    ∷ []

abbrev payment_section : FormState → List FormInput
payment_section s =
    plain_input s "Name on Card" text name_on_card none
    ∷ checked_input s "Card Number" text card_number (some "1234 5678 9012 3456")
    ∷ plain_input s "Expiry Date" text expiry_date (some "MM/YY")
    ∷ checked_input s "CVV" text cvv (some "123")
    ∷ []

abbrev form_sections : FormState → List (String × List FormInput)
form_sections s =
    ("Customer Information", customer_section s)
    ∷ ("Shipping Address", shipping_section s)
    ∷ ("Payment Information", payment_section s)
    ∷ []

-- The browser checks the inputs of type "email"; no input has another constraint.
abbrev accepts_input : (String → Bool) → FormInput → Bool
accepts_input accepts_email input = elim input.input_type [
  | text ↦ true
  | tel ↦ true
  | email_address ↦ accepts_email input.value
]

abbrev accepts_inputs : (String → Bool) → List FormInput → Bool
accepts_inputs accepts_email [] = true
accepts_inputs accepts_email (input ∷ inputs) =
    accepts_input accepts_email input && accepts_inputs accepts_email inputs

abbrev accepts_sections : (String → Bool) → List (String × List FormInput) → Bool
accepts_sections accepts_email [] = true
accepts_sections accepts_email ((_, inputs) ∷ sections) =
    accepts_inputs accepts_email inputs && accepts_sections accepts_email sections

-- Whether the browser lets the form through; `accepts_email` is its check of an e-mail address.
unfoldable pub accepts_form : (String → Bool) → FormState → Bool
accepts_form accepts_email s = accepts_sections accepts_email (form_sections s)

-- The browser checks the e-mail address and nothing else.
pub accepts_form-email :
    (accepts_email : String → Bool) (s : FormState)
    → accepts_form accepts_email s ≡ accepts_email s.form_data.customer_info.email
unfolding accepts_form
accepts_form-email accepts_email s =
    elim (Bool-cases (accepts_email s.form_data.customer_info.email)) [
      | inl accepted ↦ rw accepted refl
      | inr refused ↦ rw refused refl
    ]
