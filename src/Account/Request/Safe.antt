-- ===== src/Account/Request/Safe.antt =====
-- What `WireRequest::validate` of src/account/protocol.rs guarantees of a request that it accepts.
use kaleidoscope_sdk.Prelude.{
  Bool-cases, Option-cases, is_some, ltb, ◌==◌, if◌then◌else◌, length, is_empty, ℕ, ◌≤◌, ◌≡◌, refl,
  sym, ap, ◌∙◌, ◌⊎◌, inl, inr, Bool, true, false, not, ◌||◌, Option, none, some, arith, any,
  is_ascii, is_ascii_whitespace, some-injective,
}
use kaleidoscope_sdk.JsonSpan.Value.{Bytes, Value}
use kaleidoscope_sdk.Account.Error.{
  ok, unsafe_request, ok_or, >>=-eq-ok, refuse_if-eq-ok, err-ne-ok,
}
use kaleidoscope_sdk.Account.Payload.Clean.{IsClean, value_allowed-IsClean}
use kaleidoscope_sdk.Account.Secret.{SecretString, is_bounded_ascii}
use kaleidoscope_sdk.Account.Endpoint.{
  UuidText, AccountEndpoint, parse, method_of, path_of, exchange_pkce, begin_device_authorization,
  poll_device_authorization, refresh, revoke_token_family, get_account,
  begin_external_identity_link, complete_external_identity_link, list_external_identities,
  unlink_external_identity, list_devices, revoke_device, list_audit_events,
}
use kaleidoscope_sdk.Account.Wire.{
  Json, WireRequest, validate_request, validate_account_payload, wants_token,
  max_account_body_bytes, endpoint_eq, token_refused, variant, same_bool,
}

of_variant : ℕ × ℕ → AccountEndpoint
of_variant (t, id) =
    if t == 0
    then exchange_pkce
    else if t == 1
    then begin_device_authorization
    else if t == 2
    then poll_device_authorization
    else if t == 3
    then refresh
    else if t == 4
    then revoke_token_family
    else if t == 5
    then get_account
    else if t == 6
    then begin_external_identity_link
    else if t == 7
    then complete_external_identity_link
    else if t == 8
    then list_external_identities
    else if t == 9
    then unlink_external_identity id
    else if t == 10
    then list_devices
    else if t == 11
    then revoke_device id
    else list_audit_events

of_variant-variant : (e : AccountEndpoint) → of_variant (variant e) ≡ e
unfolding of_variant
of_variant-variant exchange_pkce = refl
of_variant-variant _ = refl

pub endpoint_eq→eq : (a b : AccountEndpoint) → endpoint_eq a b ≡ true → a ≡ b
unfolding endpoint_eq
endpoint_eq→eq a b h =
    let same : variant a ≡ variant b = ground (arith, h) in
    sym (of_variant-variant a) ∙ ap of_variant same ∙ of_variant-variant b

same_bool→eq : (a b : Bool) → same_bool a b ≡ true → a ≡ b
same_bool→eq true b h = ground (arith, h)
same_bool→eq false b h = ground (arith, h)

-- Between 32 and 4096 bytes, all ASCII and none white space.
abbrev pub IsBounded : SecretString → Type 0
IsBounded token =
    (32 ≤ length token.expose)
    × (length token.expose ≤ 4096)
    × (is_ascii token.expose ≡ true)
    × (any is_ascii_whitespace token.expose ≡ false)

token-IsBounded :
    (found : Option SecretString) (token : SecretString)
    → token_refused found ≡ false
    → found ≡ some token
    → IsBounded token
unfolding token_refused is_bounded_ascii
token-IsBounded none token kept is_token = cc
token-IsBounded (some other) token kept is_token =
    rw (← some-injective is_token) (ground (arith, kept))

module _ (json : Json) (uuid : UuidText) where
  -- A request that is safe to send: its route is one of the closed set, it carries a bounded token
  -- exactly if the route wants one, and its body is small and holds nothing forbidden.
  pub record IsSafe (r : WireRequest) : Type 0 where
    pub routed : parse uuid (method_of r.endpoint) (path_of uuid r.endpoint) ≡ ok r.endpoint
    pub carries_token : wants_token r.endpoint ≡ is_some r.access_token
    pub bounded_token : (token : SecretString) → r.access_token ≡ some token → IsBounded token
    pub bounded_body : length r.body ≤ max_account_body_bytes
    pub allowed_body :
        (is_empty r.body ≡ true) ⊎ ((v : Value) × (json.parse_value r.body ≡ some v) × IsClean v)

  payload_allowed :
      (body : Bytes)
      → validate_account_payload json body ≡ ok tt
      → (v : Value) × (json.parse_value body ≡ some v) × IsClean v
  unfolding validate_account_payload
  payload_allowed body h =
      let (_, h1) = refuse_if-eq-ok (ltb max_account_body_bytes (length body)) unsafe_request _ h in
      elim (Option-cases (json.parse_value body)) [
        | inl bad ↦ absurd (err-ne-ok (rw bad at h1))
        | inr (v, e) ↦
            let (_, f, h2) = >>=-eq-ok (ok_or (json.parse_value body) unsafe_request) _ h1 in
            (v, e, value_allowed-IsClean v (ground (arith, e, f, h2)))
      ]

  -- A request that validate accepts has a route of the closed set, a bounded token exactly if its route
  -- wants an account token, and a body within the limit that is empty or, at any depth, has no key that is
  -- a forbidden word by its letters and digits in lower case, and no string that is an absolute path.
  pub validate_request-IsSafe : (r : WireRequest) → validate_request json uuid r ≡ ok tt → IsSafe r
  unfolding validate_request
  validate_request-IsSafe r h =
      let (e, found, h1) =
        >>=-eq-ok (parse uuid (method_of r.endpoint) (path_of uuid r.endpoint)) _ h in
      let (kept, h2) =
        refuse_if-eq-ok
          (not (endpoint_eq e r.endpoint)
            || not (same_bool (wants_token r.endpoint) (is_some r.access_token))
            || token_refused r.access_token
            || ltb max_account_body_bytes (length r.body))
          unsafe_request _ h1 in
      let same : e ≡ r.endpoint = endpoint_eq→eq e r.endpoint (ground (arith, kept)) in
      record {
        routed = rw same at found;
        carries_token =
            same_bool→eq (wants_token r.endpoint) (is_some r.access_token) (ground (arith, kept));
        bounded_token =
            λ token is_token. token-IsBounded r.access_token token (ground (arith, kept)) is_token;
        bounded_body = ground (arith, kept);
        allowed_body = elim (Bool-cases (is_empty r.body)) [
          | inl none_sent ↦ inl none_sent
          | inr sent ↦ inr (payload_allowed r.body (rw sent at h2))
        ];
      }
