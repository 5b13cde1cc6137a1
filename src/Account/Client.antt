-- ===== src/Account/Client.antt =====
-- src/account/client.rs: `AccountClient`. Its parts in other crates are the records `Json`,
-- `UuidText` and `Oidc`; its traits are the `Environment` of Account.Action.
pub mod Steady
pub mod Writes
pub mod Refresh
pub mod Login
pub mod Session
pub mod Identities
pub mod IdentitiesKeeps
pub mod LoginKeeps
pub mod SessionKeeps
pub mod Lineage
pub mod Polling
pub mod Runs
pub mod Tests
use kaleidoscope_sdk.Prelude.{
  is_some, ltb, leb, ◌==◌, if◌then◌else◌, length, any, bytes_eq, Text, codes, is_empty, ℕ, ◌+◌, min,
  Bool, true, false, not, ◌&&◌, ◌||◌, Option, none, some, List, [], ◌∷◌, ◌++◌,
}
use kaleidoscope_sdk.Account.Error.{
  AccountResult, invalid_response, oidc_verification, deadline_exceeded, cancelled,
  already_signed_in, ok_or,
}
use kaleidoscope_sdk.Account.Secret.{SecretString, constant_time_eq, is_bounded_ascii}
use kaleidoscope_sdk.Account.Url.{Url, url_eq}
use kaleidoscope_sdk.Account.Endpoint.{UuidText}
use kaleidoscope_sdk.Account.Config.{AccountClientConfig, as_secs, validate_oidc_url}
use kaleidoscope_sdk.Account.Store.{StoredCredential, new_credential}
use kaleidoscope_sdk.Account.Wire.{
  Json, SessionWire, WireRequest, WireResponse, parse_success, max_oidc_document_bytes,
}
use kaleidoscope_sdk.Account.Request.{revoke_request}
use kaleidoscope_sdk.Account.Oidc.{
  Oidc, ValidatedProvider, is_supported_algorithm, saturating_add, u64_max,
}
use kaleidoscope_sdk.Account.Oidc.Token.{verify_id_token}
use kaleidoscope_sdk.Account.Action.{
  ◌>>=◌, ◌>>◌, Environment, Action, pure, lift, ignore, refuse_when, load, send, get_oidc_document,
  now_unix, fill_random, discovery_document, jwks_document,
}
use kaleidoscope_sdk.Account.Action

pub record AccountClient : Type 0 where
  pub config : AccountClientConfig
  pub json : Json
  pub uuid : UuidText
  pub oidc : Oidc
  pub env : Environment

pub record ActiveSession : Type 0 where
  pub access_token : SecretString
  pub credential : StoredCredential

-- The first check of `validate_session`.
unfoldable pub session_refused : SessionWire → Bool
session_refused wire =
    not (bytes_eq wire.token_type (codes "Bearer"))
    || not (leb 1 wire.expires_in && leb wire.expires_in 3600)
    || wire.account_id == 0
    || wire.device_id == 0
    || wire.token_family_id == 0

abbrev pub secret : Text → SecretString
secret t = record { expose = t }

-- The second check, on the three tokens.
unfoldable pub tokens_refused : SessionWire → Bool
tokens_refused wire =
    not (is_bounded_ascii (secret wire.access_token))
    || not (is_bounded_ascii (secret wire.refresh_token))
    || not (is_bounded_ascii (secret wire.id_token))
    || constant_time_eq (secret wire.access_token) (secret wire.refresh_token)

-- The check against the credential that is being refreshed: same account, device and token family,
-- this client's issuer and audience, the next generation, and another refresh token. The `checked_add`
-- fails with the same error as the comparison.
unfoldable pub continues : AccountClientConfig → StoredCredential → SessionWire → Bool
continues config previous wire =
    wire.account_id == previous.account_id
    && wire.device_id == previous.device_id
    && wire.token_family_id == previous.token_family_id
    && url_eq previous.issuer config.issuer
    && bytes_eq previous.audience config.audience
    && (ltb previous.refresh_generation u64_max
        && wire.refresh_generation == previous.refresh_generation + 1)
    && not (constant_time_eq previous.refresh_token (secret wire.refresh_token))

unfoldable pub lineage_refused : AccountClientConfig → Option StoredCredential → SessionWire → Bool
unfolding continues
lineage_refused config (some previous) wire = not (continues config previous wire)
lineage_refused config none wire = not (wire.refresh_generation == 0)

-- `issuer.as_str().trim_end_matches('/')`
unfoldable pub trim_slashes : Text → Text
trim_slashes [] = []
trim_slashes (c ∷ cs) =
    let rest = trim_slashes cs in if c == b'/' && is_empty rest then [] else c ∷ rest

-- `discovery_url`, before it is parsed.
unfoldable pub discovery_text : Url → Text
unfolding trim_slashes
discovery_text issuer =
    trim_slashes issuer.serialization ++ codes "/.well-known/openid-configuration"

module _ (client : AccountClient) where
  -- `request_deadline`
  unfoldable pub request_deadline : ℕ → Action ℕ
  request_deadline overall = do
    now ← now_unix client.env
    pure (min (saturating_add now (as_secs client.config.request_timeout)) overall)

  -- `self.transport.send(request?, self.request_deadline(overall))`
  unfoldable pub send_request : AccountResult WireRequest → ℕ → Action WireResponse
  unfolding request_deadline
  send_request request overall = do
    r ← lift request
    deadline ← request_deadline overall
    send client.env r deadline

  -- `ensure_before`
  unfoldable pub ensure_before : ℕ → Action (Unit {0})
  ensure_before deadline = do
    stop ← Action.cancelled client.env
    refuse_when stop cancelled
    now ← now_unix client.env
    refuse_when (leb deadline now) deadline_exceeded

  -- `ensure_signed_out`
  unfoldable pub ensure_signed_out : Action (Unit {0})
  ensure_signed_out = do stored ← load client.env; refuse_when (is_some stored) already_signed_in

  -- `fresh_secret` of src/account/runtime.rs
  unfoldable pub fresh_secret : Action SecretString
  fresh_secret = do bytes ← fill_random client.env; pure (secret (client.oidc.encode_base64 bytes))

  -- `parse_document` of src/account/oidc.rs
  unfoldable pub parse_document {ℓ} : {A : Type ℓ} → (List ℕ → Option A) → WireResponse → Action A
  parse_document read response = do
    refuse_when (not (response.status == 200) || ltb max_oidc_document_bytes (length response.body))
        oidc_verification
    lift (ok_or (read response.body) oidc_verification)

  -- `ValidatedProvider::discover` of src/account/oidc.rs. `trim_end_matches('/')` is `trim_slashes`.
  unfoldable pub discover : ℕ → Action ValidatedProvider
  unfolding parse_document
  discover deadline = do
    url ←
        lift (ok_or (client.oidc.parse_url (discovery_text client.config.issuer)) oidc_verification)
    lift (validate_oidc_url client.config url false)
    response ← get_oidc_document client.env discovery_document url deadline
    discovery ← parse_document client.oidc.read_discovery response
    refuse_when (not (url_eq discovery.issuer client.config.issuer)) oidc_verification
    lift (validate_oidc_url client.config discovery.authorization_endpoint true)
    lift (validate_oidc_url client.config discovery.jwks_uri false)
    refuse_when (not (any is_supported_algorithm discovery.id_token_signing_alg_values_supported))
        oidc_verification
    jwks_response ← get_oidc_document client.env jwks_document discovery.jwks_uri deadline
    jwks ← parse_document client.oidc.read_jwks jwks_response
    refuse_when (length jwks == 0 || ltb 100 (length jwks)) oidc_verification
    pure (record { discovery = discovery; jwks = jwks })

  -- `discover_provider`
  unfoldable pub discover_provider : ℕ → Action ValidatedProvider
  unfolding ensure_before request_deadline discover
  discover_provider overall = do
    ensure_before overall
    deadline ← request_deadline overall
    discover deadline

  -- `validate_session`
  unfoldable pub validate_session :
      WireResponse
      → ValidatedProvider
      → SecretString
      → Option StoredCredential
      → Action ActiveSession
  unfolding session_refused tokens_refused lineage_refused
  validate_session response provider nonce expected = do
    wire ← lift (parse_success client.json client.json.session response 200)
    refuse_when (session_refused wire) invalid_response
    refuse_when (tokens_refused wire) invalid_response
    now ← now_unix client.env
    subject ←
        lift (
          verify_id_token client.oidc provider client.config (secret wire.id_token) (some nonce)
            now)
    refuse_when (lineage_refused client.config expected wire) invalid_response
    credential ← lift (
        new_credential wire.account_id wire.device_id wire.token_family_id wire.refresh_generation
          client.config.issuer client.config.audience subject (secret wire.refresh_token))
    pure (record { access_token = secret wire.access_token; credential = credential })

  -- `best_effort_revoke`
  unfoldable pub best_effort_revoke : SecretString → Action (Unit {0})
  unfolding send_request
  best_effort_revoke token =
      ignore (send_request (revoke_request client.json client.uuid token) u64_max)
