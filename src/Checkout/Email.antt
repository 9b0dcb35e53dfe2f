-- ===== src/Checkout/Email.antt =====
-- The e-mail test of client/src/components/CheckoutForm.tsx, /\S+@\S+\.\S+/, on the UTF-16 code
-- units of a string: backtracking matchers, each followed by what has to match after it.
use client_server_with_lb_de.Base.{
  ℕ, String, Bool, true, false, not, ◌&&◌, ◌||◌, List, [], ◌∷◌, ◌++◌, All, units, leb, ◌=ℕ◌, ◌≡◌,
  ◌≢◌, ◌↔◌, inl, inr, refl, ap, arith, Bool-cases,
}

-- `\s`: white space and line terminators.
pub is_space : ℕ → Bool
is_space c =
    (leb 9 c && leb c 13)
    || c =ℕ 32
    || c =ℕ 0xa0
    || c =ℕ 0x1680
    || (leb 0x2000 c && leb c 0x200a)
    || c =ℕ 0x2028
    || c =ℕ 0x2029
    || c =ℕ 0x202f
    || c =ℕ 0x205f
    || c =ℕ 0x3000
    || c =ℕ 0xfeff

-- `\S+`, greedy: as many characters as there are first, then fewer.
word : (List ℕ → Bool) → List ℕ → Bool
word next [] = false
word next (c ∷ s) = not (is_space c) && (word next s || next s)

-- One given character.
literal : ℕ → (List ℕ → Bool) → List ℕ → Bool
literal x next [] = false
literal x next (c ∷ s) = c =ℕ x && next s

-- `RegExp.prototype.test`: a match that starts anywhere.
anywhere : (List ℕ → Bool) → List ℕ → Bool
anywhere next [] = next []
anywhere next (c ∷ s) = next (c ∷ s) || anywhere next s

-- The parts of the expression, each with all that follows it: the last `\S+`, `\.`, the second
-- `\S+`, `@`, the first `\S+`.
abbrev domain_part : List ℕ → Bool
domain_part = word (λ _. true)

abbrev dot_part : List ℕ → Bool
dot_part = literal b'.' domain_part

abbrev host_part : List ℕ → Bool
host_part = word dot_part

abbrev at_part : List ℕ → Bool
at_part = literal b'@' host_part

abbrev user_part : List ℕ → Bool
user_part = word at_part

-- `/\S+@\S+\.\S+/.test(email)`.
unfoldable pub email_test : String → Bool
unfolding word literal anywhere is_space
email_test email = anywhere user_part (units email)

-- A run of at least one character that is no space.
abbrev pub IsWord : List ℕ → Type 0
IsWord w = (w ≢ []) × All (λ c. is_space c ≡ false) w

-- The string holds a word, "@", a word, "." and a word, one right after the other.
pub record HasEmail (s : List ℕ) : Type 0 where
  pub before : List ℕ
  pub user : List ℕ
  pub host : List ℕ
  pub domain : List ℕ
  pub after : List ℕ
  pub split : s ≡ before ++ (user ++ b'@' ∷ (host ++ b'.' ∷ (domain ++ after)))
  pub user_word : IsWord user
  pub host_word : IsWord host
  pub domain_word : IsWord domain

module _ (next : List ℕ → Bool) where
  word_sound :
      (s : List ℕ)
      → word next s ≡ true
      → (w rest : List ℕ) × (s ≡ w ++ rest) × IsWord w × (next rest ≡ true)
  unfolding word
  word_sound [] h = cc
  word_sound (c ∷ s) h = elim (Bool-cases (word next s)) [
    | inl more ↦
        let (w, rest, split, (_, spaces), follows) = word_sound s more in
        (c ∷ w, rest, ap (◌∷◌ c) split, ((λ e. cc), (ground arith, spaces)), follows)
    | inr last ↦ (c ∷ [], s, refl, ((λ e. cc), (ground arith, tt)), ground arith)
  ]

  word_complete : (w rest : List ℕ) → IsWord w → next rest ≡ true → word next (w ++ rest) ≡ true
  unfolding word
  word_complete [] rest (nonempty, spaces) h = absurd (nonempty refl)
  word_complete (c ∷ []) rest (nonempty, (s, _)) h = ground arith
  word_complete (c ∷ d ∷ w) rest (nonempty, (s, spaces)) h =
      ground (arith, word_complete (d ∷ w) rest ((λ e. cc), spaces) h)

  literal_sound :
      (x : ℕ) (s : List ℕ)
      → literal x next s ≡ true
      → (rest : List ℕ) × (s ≡ x ∷ rest) × (next rest ≡ true)
  unfolding literal
  literal_sound x [] h = cc
  literal_sound x (c ∷ s) h = (s, ground arith, ground arith)

  literal_complete : (x : ℕ) (rest : List ℕ) → next rest ≡ true → literal x next (x ∷ rest) ≡ true
  unfolding literal
  literal_complete x rest h = ground arith

  anywhere_sound :
      (s : List ℕ)
      → anywhere next s ≡ true
      → (before rest : List ℕ) × (s ≡ before ++ rest) × (next rest ≡ true)
  unfolding anywhere
  anywhere_sound [] h = ([], [], refl, h)
  anywhere_sound (c ∷ s) h = elim (Bool-cases (next (c ∷ s))) [
    | inl here ↦ ([], c ∷ s, refl, here)
    | inr later ↦
        let (before, rest, split, follows) = anywhere_sound s (ground arith) in
        (c ∷ before, rest, ap (◌∷◌ c) split, follows)
  ]

  anywhere_complete :
      (before rest : List ℕ) → next rest ≡ true → anywhere next (before ++ rest) ≡ true
  unfolding anywhere
  anywhere_complete [] [] h = h
  anywhere_complete [] (c ∷ rest) h = ground arith
  anywhere_complete (c ∷ before) rest h = ground (arith, anywhere_complete before rest h)

HasEmail-of_test : (email : String) → email_test email ≡ true → HasEmail (units email)
unfolding email_test
HasEmail-of_test email h =
    let (before, s₁, e₁, h₁) = anywhere_sound user_part (units email) h in
    let (user, s₂, e₂, w₂, h₂) = word_sound at_part s₁ h₁ in
    let (s₃, e₃, h₃) = literal_sound host_part b'@' s₂ h₂ in
    let (host, s₄, e₄, w₄, h₄) = word_sound dot_part s₃ h₃ in
    let (s₅, e₅, h₅) = literal_sound domain_part b'.' s₄ h₄ in
    let (domain, after, e₆, w₆, _) = word_sound (λ _. true) s₅ h₅ in
    record {
      before = before;
      user = user;
      host = host;
      domain = domain;
      after = after;
      split = cc;
      user_word = w₂;
      host_word = w₄;
      domain_word = w₆;
    }

test-of_HasEmail : (email : String) → HasEmail (units email) → email_test email ≡ true
unfolding email_test
test-of_HasEmail email m =
    let from_domain = m.domain ++ m.after in
    let from_host = m.host ++ b'.' ∷ from_domain in
    let ok_domain = word_complete (λ _. true) m.domain m.after m.domain_word refl in
    let ok_dot = literal_complete domain_part b'.' from_domain ok_domain in
    let ok_host = word_complete dot_part m.host (b'.' ∷ from_domain) m.host_word ok_dot in
    let ok_at = literal_complete host_part b'@' from_host ok_host in
    let ok_user = word_complete at_part m.user (b'@' ∷ from_host) m.user_word ok_at in
    rw m.split (anywhere_complete user_part m.before (m.user ++ b'@' ∷ from_host) ok_user)

-- The test accepts exactly the texts that hold a word, "@", a word, "." and a word, one right after
-- the other, where a word is a run of at least one character that is no white space.
pub email_test_iff : (email : String) → (email_test email ≡ true) ↔ HasEmail (units email)
email_test_iff email = (HasEmail-of_test email, test-of_HasEmail email)

pub email_test-nil : email_test "" ≡ false
unfolding email_test
email_test-nil = refl
