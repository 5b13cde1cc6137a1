-- ===== src/Account/Client/Login.antt =====
-- src/account/client.rs, `login_pkce` and `login_device`.
use kaleidoscope_sdk.Prelude.{
  is_some, ltb, leb, ◌==◌, if◌then◌else◌, length, all, bytes_eq, Text, codes, is_ascii,
  is_ascii_alphanumeric, is_empty, ℕ, zero, suc, ◌+◌, ◌-◌, ◌^◌, min, ◌⊎◌, inl, inr, Bool, true, not,
  ◌&&◌, ◌||◌, Option, none, some, [], ◌∷◌,
}
use kaleidoscope_sdk.Account.Error.{
  AccountResult, ok, err, unsafe_request, invalid_pkce_callback, authorization_denied,
  device_authorization_expired, cancelled, refuse_if, is_ok, invalid_response,
}
use kaleidoscope_sdk.Account.Secret.{SecretString, constant_time_eq, is_bounded_ascii}
use kaleidoscope_sdk.Account.Url.{Url, url_eq, is_loopback}
use kaleidoscope_sdk.Account.Model.{LoginResult, DeviceDisplay, display_valid}
use kaleidoscope_sdk.Account.Config.{
  as_secs, validate_oidc_url, validate_first_party_verification_url,
}
use kaleidoscope_sdk.Account.Wire.{
  WireResponse, DeviceAuthorizationWire, DevicePollError, pending, slow_down, denied, expired,
  poll_cancelled, device_poll_error, parse_success,
}
use kaleidoscope_sdk.Account.Request.{
  exchange_pkce_request, poll_device_request, begin_device_request,
}
use kaleidoscope_sdk.Account.Oidc.{Oidc, ValidatedProvider, saturating_add}
use kaleidoscope_sdk.Account.Action
use kaleidoscope_sdk.Account.Action.{
  ◌>>=◌, ◌>>◌, World, Action, pure, raise, lift, attempt, refuse_when, now_unix, sleep,
  prepare_redirect, authorize, PkceCallback, display_prompt,
}
use kaleidoscope_sdk.Account.Client.{
  AccountClient, secret, ensure_signed_out, ensure_before, discover_provider, fresh_secret,
  send_request, validate_session,
}
use kaleidoscope_sdk.Account.Client.Refresh.{publish_login}

-- `redirect.port().is_none_or(|port| port < 1024)`
abbrev privileged_port : Option ℕ → Bool
privileged_port none = true
privileged_port (some port) = ltb port 1024

-- `validate_loopback_redirect`
unfoldable pub validate_loopback_redirect : Url → Text → AccountResult (Unit {0})
validate_loopback_redirect redirect expected_path =
    refuse_if
      (not (bytes_eq redirect.scheme (codes "http"))
        || not (is_loopback redirect.host)
        || not (is_empty redirect.username)
        || is_some redirect.password
        || privileged_port redirect.port
        || not (bytes_eq redirect.path expected_path)
        || is_some redirect.query
        || is_some redirect.fragment)
      invalid_pkce_callback

-- `valid_user_code`
unfoldable pub valid_user_code : Text → Bool
valid_user_code code =
    leb 4 (length code)
    && leb (length code) 20
    && is_ascii code
    && all (λ c. is_ascii_alphanumeric c || c == b'-') code

-- `build_authorization_url` and `pkce_challenge` of src/account/protocol.rs
unfoldable pub build_authorization_url :
    Oidc → Url → Text → Url → SecretString → SecretString → SecretString → Url
build_authorization_url oidc endpoint client_id redirect_uri state nonce verifier =
    oidc.append_pairs endpoint (
      (codes "client_id", client_id)
      ∷ (codes "response_type", codes "code")
      ∷ (codes "redirect_uri", redirect_uri.serialization)
      ∷ (codes "scope", codes "openid profile")
      ∷ (codes "state", state.expose)
      ∷ (codes "nonce", nonce.expose)
      ∷ (codes "code_challenge", oidc.encode_base64 (oidc.sha256 verifier.expose))
      ∷ (codes "code_challenge_method", codes "S256")
      ∷ [])

unfoldable pub callback_refused : SecretString → Url → PkceCallback → Bool
callback_refused state redirect_uri callback =
    not (constant_time_eq state callback.state)
    || not (url_eq callback.redirect_uri redirect_uri)
    || not (is_bounded_ascii callback.code)

-- `MAX_DEVICE_POLL_INTERVAL_SECONDS` and `DEVICE_SLOW_DOWN_SECONDS`
abbrev pub max_device_poll_interval_seconds : ℕ
max_device_poll_interval_seconds = 30

abbrev pub device_slow_down_seconds : ℕ
device_slow_down_seconds = 5

-- `interval.saturating_add(DEVICE_SLOW_DOWN_SECONDS).min(..)`, on `u32`.
unfoldable pub slower : ℕ → ℕ
slower interval =
    min (min (interval + device_slow_down_seconds) (2 ^ 32 - 1)) max_device_poll_interval_seconds

-- What `login_device` refuses in the provider's answer, `limit` being the overall deadline. The
-- source reads the clock for the first comparison of times only if the tests before it pass.
unfoldable pub device_shape_refused : DeviceAuthorizationWire → Bool
unfolding valid_user_code
device_shape_refused wire =
    not (is_bounded_ascii (secret wire.device_code))
    || not (valid_user_code wire.user_code)
    || not
        (leb 1 wire.interval_seconds && leb wire.interval_seconds max_device_poll_interval_seconds)

-- The variables of `login_device` that its loop reads.
pub record DeviceLogin : Type 0 where
  pub provider : ValidatedProvider
  pub nonce : SecretString
  pub device_code : SecretString
  pub deadline : ℕ
  pub interval : ℕ

module _ (client : AccountClient) where
  unfoldable pub login_pkce : DeviceDisplay → Action LoginResult
  unfolding validate_loopback_redirect build_authorization_url callback_refused
  login_pkce display = do
    ensure_signed_out client
    refuse_when (not (display_valid display)) unsafe_request
    started ← now_unix client.env
    let deadline = saturating_add started (as_secs client.config.interactive_timeout)
    provider ← discover_provider client deadline
    redirect_uri ← prepare_redirect client.env client.config.loopback_callback_path
    lift (validate_loopback_redirect redirect_uri client.config.loopback_callback_path)
    verifier ← fresh_secret client
    state ← fresh_secret client
    nonce ← fresh_secret client
    let url =
        build_authorization_url client.oidc provider.discovery.authorization_endpoint
          client.config.public_client_id redirect_uri state nonce verifier
    lift (validate_oidc_url client.config url true)
    callback ← authorize client.env url deadline
    refuse_when (callback_refused state redirect_uri callback) invalid_pkce_callback
    ensure_before client deadline
    response ←
        send_request client
          (exchange_pkce_request client.json client.uuid client.config.public_client_id
            callback.code verifier redirect_uri nonce display)
          deadline
    session ← validate_session client response provider nonce none
    publish_login client session

  -- `.map_err(|_| AccountError::DeviceAuthorizationExpired)`
  unfoldable pub before_or_expired : ℕ → Action (Unit {0})
  before_or_expired deadline = do
    r ← attempt (ensure_before client deadline)
    refuse_when (not (is_ok r)) device_authorization_expired

  -- `if self.runtime.cancelled() { return Err(Cancelled); }`, then the deadline.
  unfoldable pub still_waiting : ℕ → Action (Unit {0})
  unfolding before_or_expired
  still_waiting deadline = do
    stop ← Action.cancelled client.env
    refuse_when stop cancelled
    before_or_expired deadline

  -- The `match` on the poll error.
  unfoldable pub next_interval : ℕ → DevicePollError → Action (LoginResult ⊎ ℕ)
  unfolding slower
  next_interval interval pending = pure (inr interval)
  next_interval interval slow_down = pure (inr (slower interval))
  next_interval interval denied = raise authorization_denied
  next_interval interval expired = raise device_authorization_expired
  next_interval interval poll_cancelled = raise cancelled

  -- `if response.status == 200`
  unfoldable pub poll_success :
      ValidatedProvider → SecretString → WireResponse → Action (LoginResult ⊎ ℕ)
  poll_success provider nonce response = do
    session ← validate_session client response provider nonce none
    result ← publish_login client session
    pure (inl result)

  -- One round of the loop: `inl` the result, or `inr` the next interval.
  unfoldable pub poll_answer :
      ValidatedProvider → SecretString → ℕ → WireResponse → Action (LoginResult ⊎ ℕ)
  unfolding next_interval poll_success
  poll_answer provider nonce interval response =
      if response.status == 200
      then poll_success provider nonce response
      else (lift (device_poll_error client.json response) >>= next_interval interval)

  unfoldable pub poll_round :
      ValidatedProvider → SecretString → SecretString → ℕ → ℕ → Action (LoginResult ⊎ ℕ)
  unfolding still_waiting poll_answer
  poll_round provider nonce device_code deadline interval = do
    still_waiting deadline
    sleep client.env interval
    still_waiting deadline
    response ←
        send_request client
          (poll_device_request client.json client.uuid client.config.public_client_id device_code)
          deadline
    poll_answer provider nonce interval response

  -- The loop, with fuel; out of fuel is `none`.
  unfoldable pub poll_loop :
      ℕ
      → ValidatedProvider
      → SecretString
      → SecretString
      → ℕ
      → ℕ
      → World
      → Option (AccountResult LoginResult × World)
  unfolding poll_round
  poll_loop zero provider nonce device_code deadline interval w = none
  poll_loop (suc fuel) provider nonce device_code deadline interval w =
      let (r, w') = poll_round provider nonce device_code deadline interval w in
      elim r [
        | err e ↦ some (err e, w')
        | ok answer ↦ elim answer [
          | inl result ↦ some (ok result, w')
          | inr interval' ↦ poll_loop fuel provider nonce device_code deadline interval' w'
        ]
      ]

  -- `login_device` up to the loop: what the loop needs.
  unfoldable pub begin_device_login : DeviceDisplay → Action DeviceLogin
  unfolding device_shape_refused
  begin_device_login display = do
    ensure_signed_out client
    refuse_when (not (display_valid display)) unsafe_request
    started ← now_unix client.env
    let overall_deadline = saturating_add started (as_secs client.config.device_timeout)
    provider ← discover_provider client overall_deadline
    nonce ← fresh_secret client
    response ←
        send_request client
          (begin_device_request client.json client.uuid client.config.public_client_id nonce
            display)
          overall_deadline
    wire ← lift (parse_success client.json client.json.device_authorization response 200)
    refuse_when (device_shape_refused wire) invalid_response
    now ← now_unix client.env
    refuse_when (leb wire.expires_at now || ltb overall_deadline wire.expires_at) invalid_response
    lift (validate_first_party_verification_url client.config wire.verification_uri)
    display_prompt client.env (record {
      user_code = wire.user_code;
      verification_uri = wire.verification_uri;
      expires_at = wire.expires_at;
      interval_seconds = wire.interval_seconds;
      display = display;
    })
    pure (record {
      provider = provider;
      nonce = nonce;
      device_code = secret wire.device_code;
      deadline = min overall_deadline wire.expires_at;
      interval = wire.interval_seconds;
    })

  -- `login_device`, with fuel for its loop.
  unfoldable pub login_device :
      ℕ → DeviceDisplay → World → Option (AccountResult LoginResult × World)
  unfolding begin_device_login poll_loop
  login_device fuel display w =
      let (r, w') = begin_device_login display w in
      elim r [
        | err e ↦ some (err e, w')
        | ok d ↦ poll_loop fuel d.provider d.nonce d.device_code d.deadline d.interval w'
      ]
