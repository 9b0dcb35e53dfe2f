-- ===== src/Checkout/Validation.antt =====
-- What the validation of client/src/components/CheckoutForm.tsx accepts, and what it reports.
use client_server_with_lb_de.Base.{
  ℕ, String, Bool, true, false, not, ◌&&◌, ◌||◌, [], ◌∷◌, Option, none, some, length, ltb, truthy,
  units, if◌then◌else◌, ◌==◌, eq_iff, ◌≤◌, ◌<◌, ◌≡◌, ◌≢◌, ◌↔◌, ◌⊎◌, inl, inr, refl, sym, ◌∙◌, arith,
  false≢true, Bool-cases,
}
use client_server_with_lb_de.Checkout.{
  OrderData, Field, is_absent, first_name, last_name, email, phone, street, city, state, zip_code,
  name_on_card, card_number, expiry_date, cvv, SectionErrors, FormErrors, customer_errors,
  shipping_errors, payment_errors, validate_form, FormState, handle_submit,
}
use client_server_with_lb_de.Checkout.Email.{email_test, email_test-nil, HasEmail, email_test_iff}

-- What the form asks of a field.
abbrev pub Meets : Field → OrderData → Type 0
Meets first_name form = form.customer_info.first_name ≢ ""
Meets last_name form = form.customer_info.last_name ≢ ""
Meets email form = HasEmail (units form.customer_info.email)
Meets street form = form.shipping_address.street ≢ ""
Meets city form = form.shipping_address.city ≢ ""
Meets zip_code form = form.shipping_address.zip_code ≢ ""
Meets card_number form = 16 ≤ length (units form.payment_method.card_number)
Meets cvv form = 3 ≤ length (units form.payment_method.cvv)
Meets phone form = Unit
Meets state form = Unit
Meets name_on_card form = Unit
Meets expiry_date form = Unit

-- The message for a field that does not have what is asked of it.
abbrev pub complaint : Field → String
complaint first_name = "First name is required"
complaint last_name = "Last name is required"
complaint email = "Valid email is required"
complaint street = "Street address is required"
complaint city = "City is required"
complaint zip_code = "ZIP code is required"
complaint card_number = "Valid card number is required"
complaint cvv = "Valid CVV is required"
complaint _ = ""

abbrev pub same_field : Field → Field → Bool
same_field first_name first_name = true
same_field last_name last_name = true
same_field email email = true
same_field phone phone = true
same_field street street = true
same_field city city = true
same_field state state = true
same_field zip_code zip_code = true
same_field name_on_card name_on_card = true
same_field card_number card_number = true
same_field expiry_date expiry_date = true
same_field cvv cvv = true
same_field _ _ = false

abbrev message_in : Field → SectionErrors → Option String
message_in field [] = none
message_in field ((f, message) ∷ rest) =
    if same_field f field then some message else message_in field rest

abbrev section_message : Field → Option SectionErrors → Option String
section_message field none = none
section_message field (some errors) = message_in field errors

-- `errors.customerInfo?.firstName` and the like: what is shown beside the field.
abbrev pub error_of : Field → FormErrors → Option String
error_of first_name errors = section_message first_name errors.customer_info
error_of last_name errors = section_message last_name errors.customer_info
error_of email errors = section_message email errors.customer_info
error_of phone errors = section_message phone errors.customer_info
error_of street errors = section_message street errors.shipping_address
error_of city errors = section_message city errors.shipping_address
error_of state errors = section_message state errors.shipping_address
error_of zip_code errors = section_message zip_code errors.shipping_address
error_of name_on_card errors = section_message name_on_card errors.payment_method
error_of card_number errors = section_message card_number errors.payment_method
error_of expiry_date errors = section_message expiry_date errors.payment_method
error_of cvv errors = section_message cvv errors.payment_method

-- The requirement as the code tests it.
passes : Field → OrderData → Bool
passes first_name form = truthy form.customer_info.first_name
passes last_name form = truthy form.customer_info.last_name
passes email form = email_test form.customer_info.email
passes street form = truthy form.shipping_address.street
passes city form = truthy form.shipping_address.city
passes zip_code form = truthy form.shipping_address.zip_code
passes card_number form = not (ltb (length (units form.payment_method.card_number)) 16)
passes cvv form = not (ltb (length (units form.payment_method.cvv)) 3)
passes _ form = true

truthy_iff : (s : String) → (truthy s ≡ true) ↔ (s ≢ "")
truthy_iff s = ground (arith, eq_iff s "")

passes_iff : (field : Field) (form : OrderData) → (passes field form ≡ true) ↔ Meets field form
unfolding passes
passes_iff first_name form = truthy_iff form.customer_info.first_name
passes_iff last_name form = truthy_iff form.customer_info.last_name
passes_iff email form = email_test_iff form.customer_info.email
passes_iff street form = truthy_iff form.shipping_address.street
passes_iff city form = truthy_iff form.shipping_address.city
passes_iff zip_code form = truthy_iff form.shipping_address.zip_code
passes_iff card_number form = ground arith
passes_iff cvv form = ground arith
passes_iff _ form = ((λ e. tt), (λ m. refl))

-- The empty text is refused by the tests that follow, so the test for it adds nothing.
email_nonempty : (s : String) → (not (truthy s) || not (email_test s)) ≡ not (email_test s)
email_nonempty s = elim (Bool-cases (s == "")) [
  | inl empty ↦ rw ((eq_iff s "").0 empty, email_test-nil)
  | inr some_text ↦ rw some_text
]

long_enough :
    (s : String) (k : ℕ)
    → 0 < k
    → (not (truthy s) || ltb (length (units s)) k) ≡ ltb (length (units s)) k
long_enough s k h = elim (Bool-cases (s == "")) [
  | inl empty ↦ rw ((eq_iff s "").0 empty) (ground arith)
  | inr some_text ↦ rw some_text
]

-- A field's message, by its test.
abbrev verdict : Field → OrderData → Option String
verdict field form = if passes field form then none else some (complaint field)

-- The messages of each section, and whether it has none.
module _ (form : OrderData) where
  open form use {customer_info, shipping_address, payment_method}

  customer_messages :
      (section_message first_name (customer_errors customer_info) ≡ verdict first_name form)
      × (section_message last_name (customer_errors customer_info) ≡ verdict last_name form)
      × (section_message email (customer_errors customer_info) ≡ verdict email form)
      × (section_message phone (customer_errors customer_info) ≡ none)
      × (is_absent (customer_errors customer_info)
          ≡ (passes first_name form && passes last_name form && passes email form))
  unfolding customer_errors passes
  customer_messages = rw (email_nonempty customer_info.email) (ground arith)

  shipping_messages :
      (section_message street (shipping_errors shipping_address) ≡ verdict street form)
      × (section_message city (shipping_errors shipping_address) ≡ verdict city form)
      × (section_message zip_code (shipping_errors shipping_address) ≡ verdict zip_code form)
      × (section_message state (shipping_errors shipping_address) ≡ none)
      × (is_absent (shipping_errors shipping_address)
          ≡ (passes street form && passes city form && passes zip_code form))
  unfolding shipping_errors passes
  shipping_messages = ground arith

  payment_messages :
      (section_message card_number (payment_errors payment_method) ≡ verdict card_number form)
      × (section_message cvv (payment_errors payment_method) ≡ verdict cvv form)
      × (section_message name_on_card (payment_errors payment_method) ≡ none)
      × (section_message expiry_date (payment_errors payment_method) ≡ none)
      × (is_absent (payment_errors payment_method) ≡ (passes card_number form && passes cvv form))
  unfolding payment_errors passes
  payment_messages =
      rw
        (
          long_enough payment_method.card_number 16 (omega arith),
          long_enough payment_method.cvv 3 (omega arith),
        )
        (ground arith)

  error_of-verdict : (field : Field) → error_of field (validate_form form).0 ≡ verdict field form
  unfolding validate_form passes
  error_of-verdict first_name = customer_messages.0
  error_of-verdict last_name = customer_messages.1
  error_of-verdict email = customer_messages.2
  error_of-verdict phone = customer_messages.3
  error_of-verdict street = shipping_messages.0
  error_of-verdict city = shipping_messages.1
  error_of-verdict zip_code = shipping_messages.2
  error_of-verdict state = shipping_messages.3
  error_of-verdict card_number = payment_messages.0
  error_of-verdict cvv = payment_messages.1
  error_of-verdict name_on_card = payment_messages.2
  error_of-verdict expiry_date = payment_messages.3

  valid-eq : (validate_form form).1 ≡ (
      (passes first_name form && passes last_name form && passes email form)
      && (passes street form && passes city form && passes zip_code form)
      && (passes card_number form && passes cvv form))
  unfolding validate_form
  valid-eq = rw (customer_messages.4, shipping_messages.4, payment_messages.4)

  all_pass : (field : Field) → (validate_form form).1 ≡ true → passes field form ≡ true
  all_pass first_name h = ground (arith, valid-eq)
  all_pass last_name h = ground (arith, valid-eq)
  all_pass email h = ground (arith, valid-eq)
  all_pass street h = ground (arith, valid-eq)
  all_pass city h = ground (arith, valid-eq)
  all_pass zip_code h = ground (arith, valid-eq)
  all_pass card_number h = ground (arith, valid-eq)
  all_pass cvv h = ground (arith, valid-eq)
  all_pass _ h = (passes_iff _ form).1 tt

  pass_all : ((field : Field) → passes field form ≡ true) → (validate_form form).1 ≡ true
  pass_all h = rw (
    valid-eq,
    h first_name,
    h last_name,
    h email,
    h street,
    h city,
    h zip_code,
    h card_number,
    h cvv,
  )

-- The form is valid exactly if every field meets its requirement: names, street, city and ZIP code
-- are not empty, the e-mail address holds a word, "@", a word, "." and a word, the card number has
-- at least 16 characters and the CVV at least 3.
pub validate_form_iff :
    (form : OrderData) → ((validate_form form).1 ≡ true) ↔ ((field : Field) → Meets field form)
validate_form_iff form = (
  (λ h field. (passes_iff field form).0 (all_pass form field h)),
  (λ h. pass_all form (λ field. (passes_iff field form).1 (h field))),
)

-- After validation a field shows its message exactly if it does not meet its requirement.
pub error_of-validate_form :
    (form : OrderData) (field : Field)
    → (Meets field form × (error_of field (validate_form form).0 ≡ none))
      ⊎ ((¬ Meets field form) × (error_of field (validate_form form).0 ≡ some (complaint field)))
error_of-validate_form form field = elim (Bool-cases (passes field form)) [
  | inl good ↦ inl ((passes_iff field form).0 good, error_of-verdict form field ∙ rw good)
  | inr bad ↦ inr (
    (λ m. false≢true (sym bad ∙ (passes_iff field form).1 m)),
    error_of-verdict form field ∙ rw bad,
  )
]

-- Submitting calls `onSubmit` with the form's data if every field meets its requirement, and does
-- not call it otherwise; the data stay as they are, and the errors are those of the validation.
pub handle_submit-cases :
    (s : FormState)
    → ((handle_submit s).0 ≡ record s { errors = (validate_form s.form_data).0 })
      × ((((field : Field) → Meets field s.form_data) × ((handle_submit s).1 ≡ some s.form_data))
          ⊎ ((¬ ((field : Field) → Meets field s.form_data)) × ((handle_submit s).1 ≡ none)))
unfolding handle_submit
handle_submit-cases s = (
  refl,
  elim (Bool-cases (validate_form s.form_data).1) [
    | inl valid ↦ inl ((validate_form_iff s.form_data).0 valid, rw valid)
    | inr invalid ↦
        inr ((λ all. false≢true (sym invalid ∙ (validate_form_iff s.form_data).1 all)), rw invalid)
  ],
)
