-- ===== src/Account/Client/Lineage.antt =====
-- What an accepted session of src/account/client.rs has in common with the credential that it renews.
use kaleidoscope_sdk.Prelude.{Text, ◌+◌, ◌≡◌, refl, sym, ap, ◌∙◌, Bool, true, false, some, arith}
use kaleidoscope_sdk.Account.Error.{
  AccountResult, ok, err, invalid_response, err-ne-ok, refuse_if-eq-ok, ok-injective,
  credential_store_failure,
}
use kaleidoscope_sdk.Account.Secret.{SecretString, constant_time_eq}
use kaleidoscope_sdk.Account.Config.{AccountClientConfig}
use kaleidoscope_sdk.Account.Store.{
  StoredCredential, new_credential, is_broken, checked, validate_credential,
}
use kaleidoscope_sdk.Account.Wire.{WireResponse, SessionWire, parse_success}
use kaleidoscope_sdk.Account.Oidc.{ValidatedProvider}
use kaleidoscope_sdk.Account.Oidc.Token.{verify_id_token}
use kaleidoscope_sdk.Account.Action.{◌>>=◌, World, Action, lift, refuse_when, pure, now_unix, after}
use kaleidoscope_sdk.Account.Client.{
  AccountClient, ActiveSession, validate_session, lineage_refused, continues, session_refused,
  tokens_refused, secret,
}

-- An action that begins with a call and succeeds has succeeded in the call.
module _ {ℓ κ} {A : Type ℓ} {B : Type κ} where
  ended :
      (f : A → Action B) (r : AccountResult A) (v : World) (b : B)
      → (after r f v).0 ≡ ok b
      → (a : A) × (r ≡ ok a) × ((f a v).0 ≡ ok b)
  ended f (ok a) v b e = (a, refl, e)
  ended f (err x) v b e = absurd (err-ne-ok e)

  pub >>=-ends :
      (m : Action A) (f : A → Action B) (w : World) {b : B}
      → ((m >>= f) w).0 ≡ ok b
      → (a : A) × ((m w).0 ≡ ok a) × ((f a (m w).1).0 ≡ ok b)
  unfolding ◌>>=◌
  >>=-ends m f w h = ended f (m w).0 (m w).1 _ h

pub refuse_when-ends :
    (b : Bool) (w : World) {u : Unit {0}} → (refuse_when b invalid_response w).0 ≡ ok u → b ≡ false
unfolding refuse_when
refuse_when-ends true w h = absurd (err-ne-ok h)
refuse_when-ends false w h = refl

-- A session that renews a credential: of the same account, device and token family, one generation
-- further, of this client's issuer and audience, and with another refresh token.
pub record IsRenewal (config : AccountClientConfig) (previous : StoredCredential)
    (session : ActiveSession) : Type 0 where
  pub same_account : session.credential.account_id ≡ previous.account_id
  pub same_device : session.credential.device_id ≡ previous.device_id
  pub same_family : session.credential.token_family_id ≡ previous.token_family_id
  pub next_generation : session.credential.refresh_generation ≡ previous.refresh_generation + 1
  pub same_issuer : session.credential.issuer ≡ config.issuer
  pub same_audience : session.credential.audience ≡ config.audience
  pub rotated : constant_time_eq previous.refresh_token session.credential.refresh_token ≡ false
  pub sound : is_broken session.credential ≡ false

new_credential_lem :
    (made c : StoredCredential) → checked made ≡ ok c → (made ≡ c) × (is_broken made ≡ false)
unfolding checked validate_credential
new_credential_lem made c h =
    let (kept, e) = refuse_if-eq-ok (is_broken made) credential_store_failure _ h in
    (ok-injective e, kept)

renewal :
    (config : AccountClientConfig) (previous : StoredCredential) (wire : SessionWire)
    (subject : Text) (credential : StoredCredential) (session : ActiveSession)
    → lineage_refused config (some previous) wire ≡ false
    → new_credential wire.account_id wire.device_id wire.token_family_id wire.refresh_generation
        config.issuer config.audience subject
        (secret wire.refresh_token)
      ≡ ok credential
    → credential ≡ session.credential
    → IsRenewal config previous session
unfolding lineage_refused continues new_credential
renewal config previous wire subject credential session kept made h =
    let built : StoredCredential = record {
      account_id = wire.account_id;
      device_id = wire.device_id;
      token_family_id = wire.token_family_id;
      refresh_generation = wire.refresh_generation;
      issuer = config.issuer;
      audience = config.audience;
      subject = subject;
      refresh_token = secret wire.refresh_token;
    } in
    let (e, whole) = new_credential_lem built credential made in
    let same : built ≡ session.credential = e ∙ h in
    record {
      same_account = sym (ap (λ c. c.account_id) same) ∙ ground (arith, kept);
      same_device = sym (ap (λ c. c.device_id) same) ∙ ground (arith, kept);
      same_family = sym (ap (λ c. c.token_family_id) same) ∙ ground (arith, kept);
      next_generation = sym (ap (λ c. c.refresh_generation) same) ∙ ground (arith, kept);
      same_issuer = sym (ap (λ c. c.issuer) same);
      same_audience = sym (ap (λ c. c.audience) same);
      rotated =
          sym (ap (λ c. constant_time_eq previous.refresh_token c.refresh_token) same)
          ∙ ground (arith, kept);
      sound = sym (ap is_broken same) ∙ whole;
    }

module _ (client : AccountClient) where
  -- A session that `validate_session` accepts in place of a stored credential renews it: the same
  -- account, device and token family, the next generation, this client's issuer and audience, another
  -- refresh token, and a credential fit to be stored.
  pub validate_session-IsRenewal :
      (response : WireResponse) (provider : ValidatedProvider) (nonce : SecretString)
      (previous : StoredCredential) (w : World) (session : ActiveSession)
      → (validate_session client response provider nonce (some previous) w).0 ≡ ok session
      → IsRenewal client.config previous session
  unfolding validate_session lift pure
  validate_session-IsRenewal response provider nonce previous w session h =
      let (wire, _, h1) =
        >>=-ends (lift (parse_success client.json client.json.session response 200)) _ w h in
      let (_, _, h2) = >>=-ends (refuse_when (session_refused wire) invalid_response) _ _ h1 in
      let (_, _, h3) = >>=-ends (refuse_when (tokens_refused wire) invalid_response) _ _ h2 in
      let (now, _, h4) = >>=-ends (now_unix client.env) _ _ h3 in
      let (subject, _, h5) =
        >>=-ends
          (lift (
            verify_id_token client.oidc provider client.config (secret wire.id_token) (some nonce)
              now))
          _ _ h4 in
      let (_, kept, h6) =
        >>=-ends (refuse_when (lineage_refused client.config (some previous) wire) invalid_response)
          _ _ h5 in
      let (credential, made, h7) =
        >>=-ends
          (lift (
            new_credential wire.account_id wire.device_id wire.token_family_id
              wire.refresh_generation client.config.issuer client.config.audience subject
              (secret wire.refresh_token)))
          _ _ h6 in
      renewal client.config previous wire subject credential session
        (refuse_when-ends (lineage_refused client.config (some previous) wire) _ kept) made
        (ap (λ s. s.credential) (ok-injective h7))
