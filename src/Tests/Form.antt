-- ===== src/Tests/Form.antt =====
-- The checkout form's theorems at sample forms.
use client_server_with_lb_de.Base.{true, some, none, units, ◌≡◌, ◌↔◌, ◌⊎◌, refl}
use client_server_with_lb_de.Checkout.{Field, validate_form, handle_submit, initial_form}
use client_server_with_lb_de.Checkout.Email
use client_server_with_lb_de.Checkout.Email.{email_test, HasEmail}
use client_server_with_lb_de.Checkout.Validation
use client_server_with_lb_de.Checkout.Validation.{Meets, error_of, complaint, same_field}
use client_server_with_lb_de.Tests.Samples.{filled_form, empty_form}

sample_forms :
    ((validate_form filled_form.form_data).1 ≡ true)
    × (error_of Field.email (validate_form initial_form).0 ≡ some "Valid email is required")
unfolding validate_form email_test
sample_forms = (refl, refl)

email_test_iff_example : (email_test "ada@b.org" ≡ true) ↔ HasEmail (units "ada@b.org")
email_test_iff_example = Email.email_test_iff "ada@b.org"

validate_form_iff_example :
    ((validate_form filled_form.form_data).1 ≡ true)
    ↔ ((field : Field) → Meets field filled_form.form_data)
validate_form_iff_example = Validation.validate_form_iff filled_form.form_data

error_of-validate_form_example :
    (Meets Field.cvv initial_form × (error_of Field.cvv (validate_form initial_form).0 ≡ none))
    ⊎ ((¬ Meets Field.cvv initial_form)
        × (error_of Field.cvv (validate_form initial_form).0 ≡ some (complaint Field.cvv)))
error_of-validate_form_example = Validation.error_of-validate_form initial_form Field.cvv

handle_submit-cases_example :
    ((handle_submit empty_form).0 ≡ record empty_form { errors = (validate_form initial_form).0 })
    × ((((field : Field) → Meets field initial_form)
          × ((handle_submit empty_form).1 ≡ some initial_form))
        ⊎ ((¬ ((field : Field) → Meets field initial_form))
            × ((handle_submit empty_form).1 ≡ none)))
handle_submit-cases_example = Validation.handle_submit-cases empty_form
