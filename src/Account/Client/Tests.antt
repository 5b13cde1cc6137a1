-- ===== src/Account/Client/Tests.antt =====
-- The account client in one environment, where the provider is found and the account service does
-- not answer: a stored credential, and the requests that `status` sends.
use kaleidoscope_sdk.Prelude.{
  inr, ◌≤◌, arith, bytes_eq, has_control, contains_byte, Text, codes, ℕ, String, ◌≡◌, refl, true,
  false, Option, none, some, [], ◌∷◌,
}
use kaleidoscope_sdk.JsonSpan.Value.{object, end}
use kaleidoscope_sdk.Account.Error.{ok, err, offline}
use kaleidoscope_sdk.Account.Secret.{SecretString, is_bounded_ascii, constant_time_eq}
use kaleidoscope_sdk.Account.Url.{Url, domain, url_eq}
use kaleidoscope_sdk.Account.Config.{AccountClientConfig, seconds}
use kaleidoscope_sdk.Account.Action.{
  ◌>>=◌, World, lift, refuse_when, now_unix, pure, attempt, sleep, send, cancelled,
}
use kaleidoscope_sdk.Account.Wire.{
  validate_request, device_poll_error, poll_error_of_code, SessionWire, parse_success,
  error_of_code,
}
use kaleidoscope_sdk.Account.Store.{StoredCredential, new_credential, is_broken}
use kaleidoscope_sdk.Account.Oidc.Token.{
  verify_id_token, three_parts, split, header_refused, sole, candidates, key_refused,
}
use kaleidoscope_sdk.Account.Client.Session.{status}
use kaleidoscope_sdk.Account.Oidc.{
  RsaJwk, TokenHeader, TokenClaims, one, ValidatedProvider, validate_claims, is_supported_algorithm,
}
use kaleidoscope_sdk.Account.Oidc.Claims.{IsAccepted, validate_claims-IsAccepted}
use kaleidoscope_sdk.Account.Client.{
  AccountClient, ActiveSession, validate_session, send_request, request_deadline, ensure_before,
}
use kaleidoscope_sdk.Account.Client.Login.{
  poll_round, still_waiting, before_or_expired, poll_answer, next_interval, slower,
}
use kaleidoscope_sdk.Account.Client.Polling.{poll_round_bounds}
use kaleidoscope_sdk.Account.Endpoint.{parse, method_of, path_of}
use kaleidoscope_sdk.Account.Payload.{value_allowed}
use kaleidoscope_sdk.Account.Request.{poll_device_request, json_request}
use kaleidoscope_sdk.Account.Client.Lineage.{IsRenewal, validate_session-IsRenewal}
use kaleidoscope_sdk.Account.Client.Runs.{
  Runs, stay, go_on, by_status, AllSafe, runs-AllSafe, runs-free_lock,
}

abbrev site : String → Url
site path = record {
  scheme = codes "https";
  host_str = some (codes "id.example");
  host = some (domain (codes "id.example"));
  username = [];
  password = none;
  port = none;
  path = codes path;
  query = none;
  fragment = none;
  origin = codes "https://id.example";
  serialization = codes path;
}

abbrev config : AccountClientConfig
config = record {
  control_plane_origin = site "/";
  issuer = site "/issuer";
  audience = codes "aud";
  public_client_id = codes "client";
  loopback_callback_path = codes "/callback";
  request_timeout = seconds 15;
  interactive_timeout = seconds 300;
  device_timeout = seconds 600;
  allowed_oidc_origins = codes "https://id.example" ∷ [];
}

abbrev long_token : SecretString
long_token = record { expose = codes "0123456789abcdef0123456789abcdef0123456789abcdef" }

abbrev one_byte : Text → Option ℕ
one_byte (x ∷ []) = some x
one_byte _ = none

abbrev rsa_key : RsaJwk
rsa_key = record {
  kty = codes "RSA";
  kid = codes "k";
  use_ = none;
  alg = none;
  n = codes "n";
  e = codes "e";
}

abbrev renewed : SessionWire
renewed = record {
  token_type = codes "Bearer";
  access_token = codes "access-access-access-access-access-access";
  refresh_token = codes "second-second-second-second-second-second";
  id_token = codes "header-header-header.claims-claims-claims.signature-signature";
  expires_in = 600;
  account_id = 1;
  device_id = 2;
  token_family_id = 3;
  refresh_generation = 5;
}

abbrev header : TokenHeader
header = record { alg = codes "RS256"; kid = codes "k"; typ = none; crit = none }

abbrev nonce : SecretString
nonce = record { expose = codes "nonce-nonce-nonce-nonce-nonce-nonce-nonce" }

abbrev claims : TokenClaims
claims = record {
  iss = codes "/issuer";
  aud = one (codes "aud");
  azp = none;
  sub = codes "subject";
  exp = 2000;
  iat = 900;
  nonce = some nonce.expose;
}

abbrev toy_client : AccountClient
toy_client = record {
  config = config;
  json = record {
    parse_value = λ bytes. some (object end);
    to_vec = λ v. some (codes "{}");
    session = λ bytes. some renewed;
    device_authorization = λ bytes. none;
    account_id = λ bytes. none;
    link = λ bytes. none;
    external_identities = λ bytes. none;
    devices = λ bytes. none;
    error = λ bytes. none;
  };
  uuid = record { format = λ id. id ∷ []; parse_str = one_byte };
  oidc = record {
    parse_url = λ t. some (site "/issuer");
    append_pairs = λ url pairs. url;
    decode_base64 = λ t. some t;
    encode_base64 = λ bytes. bytes;
    sha256 = λ bytes. bytes;
    read_discovery = λ bytes. some (record {
      issuer = site "/issuer";
      authorization_endpoint = site "/authorize";
      jwks_uri = site "/keys";
      id_token_signing_alg_values_supported = codes "RS256" ∷ [];
    });
    read_jwks = λ bytes. some (rsa_key ∷ []);
    read_header = λ bytes. some header;
    read_claims = λ bytes. some claims;
    key_accepted = λ n e. true;
    signature_valid = λ scheme n e message signature. true;
  };
  env = record {
    reply = λ sent r deadline. err offline;
    document = λ step kind url deadline. ok (record { status = 200; body = codes "{}" });
    load_fault = λ step. none;
    save_fault = λ step. none;
    delete_fault = λ step. none;
    lock_contended = λ step. false;
    lag = λ step. 1;
    is_cancelled = λ step. false;
    random_bytes = λ step. ok (codes "random");
    redirect = λ step path. err offline;
    callback = λ step url deadline. err offline;
    shown = λ step prompt. ok tt;
    opened = λ step url. ok tt;
  };
}

abbrev previous : StoredCredential
previous = record {
  account_id = 1;
  device_id = 2;
  token_family_id = 3;
  refresh_generation = 4;
  issuer = site "/issuer";
  audience = codes "aud";
  subject = codes "subject";
  refresh_token = long_token;
}

abbrev signed_in : World
signed_in = record { stored = some previous; held = false; sent = []; clock = 1000; step = 0 }

abbrev one_status : Runs toy_client signed_in (status toy_client signed_in).1
one_status = go_on signed_in signed_in _ (stay signed_in) (by_status signed_in)

runs-AllSafe_example : AllSafe toy_client.json toy_client.uuid (status toy_client signed_in).1.sent
unfolding AllSafe
runs-AllSafe_example = runs-AllSafe toy_client signed_in _ one_status tt

runs-free_lock_example : (status toy_client signed_in).1.held ≡ false
runs-free_lock_example = runs-free_lock toy_client signed_in _ one_status refl

abbrev provider : ValidatedProvider
provider = record {
  discovery = record {
    issuer = site "/issuer";
    authorization_endpoint = site "/authorize";
    jwks_uri = site "/keys";
    id_token_signing_alg_values_supported = codes "RS256" ∷ [];
  };
  jwks = rsa_key ∷ [];
}

abbrev session : ActiveSession
session = record {
  access_token = record { expose = renewed.access_token };
  credential = record previous {
    refresh_generation = 5;
    refresh_token = record { expose = renewed.refresh_token };
  };
}

accepted_claims : validate_claims config claims (some nonce) 1000 ≡ ok (codes "subject")
unfolding validate_claims bytes_eq has_control
accepted_claims = refl

accepted_session :
    (validate_session toy_client
      (record { status = 200; body = codes "{}" })
      provider
      nonce
      (some previous)
      signed_in).0
    ≡ ok session
unfolding validate_session ◌>>=◌ lift parse_success error_of_code refuse_when bytes_eq
    is_bounded_ascii constant_time_eq now_unix verify_id_token three_parts new_credential split
    is_broken contains_byte header_refused has_control pure is_supported_algorithm sole candidates
    key_refused url_eq
accepted_session = refl

validate_claims-IsAccepted_example :
    (codes "subject" ≡ claims.sub) × IsAccepted config claims (some nonce) 1000
validate_claims-IsAccepted_example =
    validate_claims-IsAccepted config claims (some nonce) 1000 (codes "subject") accepted_claims

validate_session-IsRenewal_example : IsRenewal config previous session
validate_session-IsRenewal_example =
    validate_session-IsRenewal toy_client (record { status = 200; body = codes "{}" }) provider
      nonce previous signed_in session accepted_session

-- The account service asks the device login to slow down.
abbrev busy_client : AccountClient
busy_client = record toy_client {
  env = record toy_client.env {
    reply = λ sent r deadline. ok (record { status = 400; body = [] });
  };
  json = record toy_client.json { error = λ bytes. some (codes "slow_down") };
}

slowed_down : (poll_round busy_client provider nonce nonce 2000 27 signed_in).0 ≡ ok (inr 30)
unfolding poll_round still_waiting before_or_expired poll_answer next_interval slower ◌>>=◌ lift
    attempt refuse_when pure sleep send cancelled now_unix send_request request_deadline
    ensure_before poll_device_request json_request validate_request parse method_of path_of bytes_eq
    is_bounded_ascii device_poll_error poll_error_of_code value_allowed
slowed_down = refl

poll_round_bounds_example : (27 ≤ 30) × (30 ≤ 30)
poll_round_bounds_example =
    poll_round_bounds busy_client provider nonce nonce 2000 27 30 signed_in (omega arith)
      slowed_down
