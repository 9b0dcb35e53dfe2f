-- ===== src/Api/Replies.antt =====
-- What `request` of client/src/services/api.ts makes of each way a `fetch` can end.
use client_server_with_lb_de.Base.{
  String, true, Option, some, ◌≡◌, ◌⊎◌, inl, inr, Bool-cases, refl, arith,
}
use client_server_with_lb_de.Api.{
  Shape, Payload, Options, Network, Settled, Response, Thrown, resolved, rejected, succeeded,
  failed, read_reply, request, request_config, message_of, http_message,
}

-- A reply that is an `ok` response whose body parses to `value`.
abbrev pub Delivers : {T : Type 0} → Settled (Response T) → T → Type 0
Delivers (rejected _) value = ⊥
Delivers (resolved response) value = (response.ok ≡ true) × (response.json ≡ resolved value)

Settled-cases :
    {A : Type 0} (p : Settled A)
    → ((a : A) × (p ≡ resolved a)) ⊎ ((error : Thrown) × (p ≡ rejected error))
Settled-cases (resolved a) = inl (a, refl)
Settled-cases (rejected error) = inr (error, refl)

pub read_reply-cases :
    {T : Type 0} (reply : Settled (Response T))
    → ((value : T) × Delivers reply value × (read_reply reply ≡ resolved (succeeded value)))
      ⊎ ((message : String) × ((value : T) → ¬ Delivers reply value)
          × (read_reply reply ≡ resolved (failed (some message))))
unfolding read_reply
read_reply-cases (rejected error) = inr (message_of error, (λ v h. h), refl)
read_reply-cases (resolved response) = elim (Bool-cases response.ok) [
  | inl fine ↦ elim (Settled-cases response.json) [
    | inl (value, parsed) ↦ inl (value, (fine, parsed), rw (fine, parsed))
    | inr (error, broken) ↦ inr (message_of error, (λ v h. ground arith), rw (fine, broken))
  ]
  | inr bad ↦ inr (http_message response.status, (λ v h. ground arith), rw bad)
]

-- `request` never rejects: for every way `fetch` can end it resolves, to the parsed body if the
-- response is `ok` and its body parses, and otherwise to a failure that carries a message. It makes
-- one call of `fetch`, with the endpoint behind the base URL.
pub request-resolved :
    (n : Network) (vite_api_url : Option String) (s : Shape) (endpoint : String) (options : Options)
    (world : n.World)
    → let sent = n.fetch s (request_config vite_api_url endpoint options) world in
      ((request n vite_api_url s endpoint options world).1 ≡ sent.1)
      × (((value : Payload s) × Delivers sent.0 value
            × ((request n vite_api_url s endpoint options world).0 ≡ resolved (succeeded value)))
          ⊎ ((message : String) × ((value : Payload s) → ¬ Delivers sent.0 value)
              × ((request n vite_api_url s endpoint options world).0
                  ≡ resolved (failed (some message)))))
unfolding request
request-resolved n vite_api_url s endpoint options world = (refl, read_reply-cases _)
