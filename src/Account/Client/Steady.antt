-- ===== src/Account/Client/Steady.antt =====
-- The parts of `AccountClient` (src/account/client.rs) that write neither the credential store nor the
-- lock: they keep every property that survives the passing of time and the sending of a validated
-- request.
use kaleidoscope_sdk.Prelude.{ℕ, ◌≡◌, refl, Option, List, ◌∷◌}
use kaleidoscope_sdk.Account.Error.{AccountResult, ok, err}
use kaleidoscope_sdk.Account.Wire.{WireRequest, validate_request, WireResponse}
use kaleidoscope_sdk.Account.Request.Checked.{IsChecked, revoke_request-IsChecked}
use kaleidoscope_sdk.Account.Secret.{SecretString}
use kaleidoscope_sdk.Account.Oidc.{ValidatedProvider}
use kaleidoscope_sdk.Account.Store.{StoredCredential}
use kaleidoscope_sdk.Account.Action.{Action, attempt, ◌>>=◌, World, lift, tick, send}
use kaleidoscope_sdk.Account.Action.Keeps.{
  Keeps, keeps_rules, call_rules, Keeps-attempt, Keeps-bind,
}
use kaleidoscope_sdk.Account.Client.{
  AccountClient, request_deadline, send_request, ensure_before, ensure_signed_out, fresh_secret,
  discover, discover_provider, validate_session, best_effort_revoke, parse_document,
}

-- The world after a request went out.
abbrev pub after_send : (client : AccountClient) → WireRequest → World → World
after_send client r w = record (tick client.env w) { sent = r ∷ w.sent }

module _ (client : AccountClient) {P : World → Type 0}
    (steady : (w : World) → P w → P (tick client.env w))
    (sends : (r : WireRequest)
      → validate_request client.json client.uuid r ≡ ok tt
      → (w : World) → P w
      → P (after_send client r w)) where
  Keeps-request_deadline : (overall : ℕ) → Keeps P (request_deadline client overall)
  unfolding request_deadline
  Keeps-request_deadline overall = search (keeps_rules, call_rules, steady)

  Keeps-send :
      (r : WireRequest) (deadline : ℕ)
      → validate_request client.json client.uuid r ≡ ok tt
      → Keeps P (send client.env r deadline)
  unfolding send
  Keeps-send r deadline valid = record { holds = sends r valid }

  pub Keeps-send_request :
      (request : AccountResult WireRequest) (overall : ℕ)
      → IsChecked client.json client.uuid request
      → Keeps P (send_request client request overall)
  unfolding send_request lift ◌>>=◌
  Keeps-send_request (ok r) overall checked = record {
    holds =
        (Keeps-bind (request_deadline client overall) (λ deadline. send client.env r deadline)
          (Keeps-request_deadline overall)
          (λ deadline. Keeps-send r deadline (checked r refl))).holds;
  }
  Keeps-send_request (err e) overall checked = record { holds = λ w h. h }

  pub Keeps-ensure_before : (deadline : ℕ) → Keeps P (ensure_before client deadline)
  unfolding ensure_before
  Keeps-ensure_before deadline = search (keeps_rules, call_rules, steady)

  pub Keeps-ensure_signed_out : Keeps P (ensure_signed_out client)
  unfolding ensure_signed_out
  Keeps-ensure_signed_out = search (keeps_rules, call_rules, steady)

  pub Keeps-fresh_secret : Keeps P (fresh_secret client)
  unfolding fresh_secret
  Keeps-fresh_secret = search (keeps_rules, call_rules, steady)

  Keeps-parse_document {ℓ} :
      {A : Type ℓ} (read : List ℕ → Option A) (response : WireResponse)
      → Keeps P (parse_document client read response)
  unfolding parse_document
  Keeps-parse_document read response = search (keeps_rules)

  pub Keeps-discover : (deadline : ℕ) → Keeps P (discover client deadline)
  unfolding discover
  Keeps-discover deadline =
      search (keeps_rules, call_rules, steady, Keeps-parse_document) depth 40 fits 3000

  pub Keeps-discover_provider : (overall : ℕ) → Keeps P (discover_provider client overall)
  unfolding discover_provider
  Keeps-discover_provider overall =
      search (keeps_rules, call_rules, Keeps-ensure_before, Keeps-request_deadline, Keeps-discover)

  pub Keeps-validate_session :
      (response : WireResponse) (provider : ValidatedProvider) (nonce : SecretString)
      (expected : Option StoredCredential)
      → Keeps P (validate_session client response provider nonce expected)
  unfolding validate_session
  Keeps-validate_session response provider nonce expected =
      search (keeps_rules, call_rules, steady) depth 40 fits 3000

  pub Keeps-best_effort_revoke : (token : SecretString) → Keeps P (best_effort_revoke client token)
  unfolding best_effort_revoke
  Keeps-best_effort_revoke token =
      search (keeps_rules, Keeps-send_request, revoke_request-IsChecked)

  -- `match self.transport.send(request?, ..)`: the request is checked before the outcome is looked at.
  pub Keeps-attempt_send {ℓ} :
      {B : Type ℓ} (request : AccountResult WireRequest) (overall : ℕ)
      (next : AccountResult WireResponse → Action B)
      → IsChecked client.json client.uuid request
      → ((o : AccountResult WireResponse) → Keeps P (next o))
      → Keeps P (lift request >>= λ r. attempt (send_request client (ok r) overall) >>= next)
  unfolding lift ◌>>=◌
  Keeps-attempt_send (err e) overall next checked later = record { holds = λ w h. h }
  Keeps-attempt_send (ok r) overall next checked later = record {
    holds =
        (Keeps-bind (attempt (send_request client (ok r) overall)) next
          (Keeps-attempt _ (Keeps-send_request (ok r) overall checked)) later).holds;
  }
