-- ===== src/Account/Client/Identities.antt =====
-- src/account/client.rs: `external_identities`, and what it preserves.
use kaleidoscope_sdk.Prelude.{ltb, ◌==◌, if◌then◌else◌, length, Bool, true, false, List, [], ◌∷◌}
use kaleidoscope_sdk.Account.Error.{AccountResult, ok, err, invalid_response}
use kaleidoscope_sdk.Account.Model.{ExternalIdentitySummary}
use kaleidoscope_sdk.Account.Config.{validate_oidc_url}
use kaleidoscope_sdk.Account.Wire.{parse_success}
use kaleidoscope_sdk.Account.Request.{list_external_identities_request}
use kaleidoscope_sdk.Account.Oidc.{u64_max}
use kaleidoscope_sdk.Account.Action.{◌>>=◌, ◌>>◌, Action, pure, lift, refuse_when, now_unix}
use kaleidoscope_sdk.Account.Client.{AccountClient, send_request}
use kaleidoscope_sdk.Account.Client.Refresh.{refresh_access}

abbrev is_err : AccountResult (Unit {0}) → Bool
is_err (ok u) = false
is_err (err e) = true

module _ (client : AccountClient) where
  -- What is refused in one identity. The clock is read only if the identifier is not nil.
  unfoldable pub identity_broken : ExternalIdentitySummary → Action Bool
  identity_broken identity = if identity.external_identity_id == 0 then pure true else (do
    now ← now_unix client.env
    pure (
        if ltb now identity.linked_at
        then true
        else is_err (validate_oidc_url client.config identity.issuer false)))

  abbrev pub or_rest : Bool → Action Bool → Action Bool
  or_rest true rest = pure true
  or_rest false rest = rest

  -- `iter().any(..)`
  unfoldable pub any_broken : List ExternalIdentitySummary → Action Bool
  unfolding identity_broken
  any_broken [] = pure false
  any_broken (identity ∷ identities) = do
    broken ← identity_broken identity
    or_rest broken (any_broken identities)

  -- The `if` of `external_identities`, which asks for the length first.
  unfoldable pub identities_refused : List ExternalIdentitySummary → Action Bool
  unfolding any_broken
  identities_refused identities =
      if ltb 100 (length identities) then pure true else any_broken identities

  -- `external_identities`
  unfoldable pub external_identities : Action (List ExternalIdentitySummary)
  unfolding identities_refused
  external_identities = do
    active ← refresh_access client
    response ←
        send_request client
          (list_external_identities_request client.json client.uuid active.access_token) u64_max
    identities ← lift (parse_success client.json client.json.external_identities response 200)
    refused ← identities_refused identities
    refuse_when refused invalid_response
    pure identities
