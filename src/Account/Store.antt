-- ===== src/Account/Store.antt =====
-- src/account/store.rs, `StoredCredential`: what the credential store keeps between runs.
use kaleidoscope_sdk.Prelude.{
  is_some, ltb, length, bytes_eq, Text, codes, is_ascii, has_control, is_empty, ℕ, Bool, not, ◌||◌,
}
use kaleidoscope_sdk.Account.Error.{AccountResult, ok, credential_store_failure, refuse_if, ◌>>◌}
use kaleidoscope_sdk.Account.Url.{Url}
use kaleidoscope_sdk.Account.Secret.{SecretString, is_bounded_ascii}

pub record StoredCredential : Type 0 where
  pub account_id : ℕ
  pub device_id : ℕ
  pub token_family_id : ℕ
  pub refresh_generation : ℕ
  pub issuer : Url
  pub audience : Text
  pub subject : Text
  pub refresh_token : SecretString

-- The condition that `StoredCredential::validate` refuses.
unfoldable pub is_broken : StoredCredential → Bool
is_broken c =
    not (bytes_eq c.issuer.scheme (codes "https"))
    || not (is_some c.issuer.host_str)
    || not (is_empty c.issuer.username)
    || is_some c.issuer.password
    || is_some c.issuer.query
    || is_some c.issuer.fragment
    || is_empty c.audience
    || ltb 200 (length c.audience)
    || not (is_ascii c.audience)
    || is_empty c.subject
    || ltb 512 (length c.subject)
    || has_control c.subject
    || not (is_bounded_ascii c.refresh_token)

-- `StoredCredential::validate`
unfoldable pub validate_credential : StoredCredential → AccountResult (Unit {0})
validate_credential c = refuse_if (is_broken c) credential_store_failure

unfoldable pub checked : StoredCredential → AccountResult StoredCredential
unfolding validate_credential
checked c = validate_credential c >> ok c

-- `StoredCredential::new`, which validates the literal that it builds.
unfoldable pub new_credential :
    ℕ → ℕ → ℕ → ℕ → Url → Text → Text → SecretString → AccountResult StoredCredential
unfolding checked
new_credential account_id device_id token_family_id refresh_generation issuer audience subject
      refresh_token =
    checked (record {
      account_id = account_id;
      device_id = device_id;
      token_family_id = token_family_id;
      refresh_generation = refresh_generation;
      issuer = issuer;
      audience = audience;
      subject = subject;
      refresh_token = refresh_token;
    })
