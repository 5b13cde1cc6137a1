-- ===== src/Account/Client/Refresh.antt =====
-- src/account/client.rs, `refresh_access` and `publish_login`: the two places that write the store.
use kaleidoscope_sdk.Prelude.{◌==◌, if◌then◌else◌, bytes_eq, not, ◌||◌, some}
use kaleidoscope_sdk.Account.Error.{
  AccountError, AccountResult, ok, err, not_signed_in, is_revocation, ok_or,
  credential_store_failure,
}
use kaleidoscope_sdk.Account.Url.{url_eq}
use kaleidoscope_sdk.Account.Model.{LoginResult}
use kaleidoscope_sdk.Account.Wire.{WireResponse, map_error_response}
use kaleidoscope_sdk.Account.Request.{refresh_request}
use kaleidoscope_sdk.Account.Oidc.{u64_max}
use kaleidoscope_sdk.Account.Action.{
  ◌>>=◌, ◌>>◌, Action, pure, raise, lift, attempt, ignore, refuse_when, load, save, delete, acquire,
  releasing,
}
use kaleidoscope_sdk.Account.Client.{
  AccountClient, ActiveSession, discover_provider, fresh_secret, send_request, validate_session,
  best_effort_revoke,
}

module _ (client : AccountClient) where
  -- `return Err(error)`, after the credential is dropped if the server revoked the session.
  unfoldable pub drop_if_revoked {ℓ} : {A : Type ℓ} → AccountError → Action A
  drop_if_revoked e = if is_revocation e then (ignore (delete client.env) >> raise e) else raise e

  -- The `match response`, and the `if response.status != 200` behind it.
  unfoldable pub accept_refresh : AccountResult WireResponse → Action WireResponse
  unfolding drop_if_revoked
  accept_refresh (err e) = drop_if_revoked e
  accept_refresh (ok response) =
      if response.status == 200
      then pure response
      else drop_if_revoked (map_error_response client.json response)

  -- `if let Err(error) = self.store.save(..)` of `refresh_access`.
  unfoldable pub keep_rotated : ActiveSession → AccountResult (Unit {0}) → Action ActiveSession
  keep_rotated session (ok _) = pure session
  keep_rotated session (err e) = do
    best_effort_revoke client session.access_token
    ignore (delete client.env)
    raise e

  -- `refresh_access`, under the lock.
  unfoldable pub refresh_held : Action ActiveSession
  unfolding accept_refresh keep_rotated
  refresh_held = do
    found ← load client.env
    stored ← lift (ok_or found not_signed_in)
    refuse_when
        (not (url_eq stored.issuer client.config.issuer)
          || not (bytes_eq stored.audience client.config.audience))
        credential_store_failure
    provider ← discover_provider client u64_max
    nonce ← fresh_secret client
    request ← lift (
        refresh_request client.json client.uuid client.config.public_client_id stored.refresh_token
          nonce)
    outcome ← attempt (send_request client (ok request) u64_max)
    response ← accept_refresh outcome
    session ← validate_session client response provider nonce (some stored)
    saved ← attempt (save client.env session.credential)
    keep_rotated session saved

  -- `refresh_access`
  unfoldable pub refresh_access : Action ActiveSession
  unfolding refresh_held
  refresh_access = do
    acquire client.env client.config.request_timeout
    releasing client.env refresh_held

  -- The two ends of `publish_login`.
  unfoldable pub publish_saved : ActiveSession → AccountResult (Unit {0}) → Action LoginResult
  publish_saved session (ok _) = pure (record {
    version = 1;
    status = "signed_in";
    account_id = session.credential.account_id;
    device_id = session.credential.device_id;
  })
  publish_saved session (err e) = do best_effort_revoke client session.access_token; raise e

  -- `publish_login`
  unfoldable pub publish_login : ActiveSession → Action LoginResult
  unfolding publish_saved
  publish_login session = do
    saved ← attempt (save client.env session.credential)
    publish_saved session saved
