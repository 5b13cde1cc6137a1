-- ===== src/Account/Action.antt =====
-- What an operation of `AccountClient` (src/account/client.rs) reads and changes besides its
-- configuration: the credential store, the refresh lock, the requests that went out, and the clock.
-- The traits `CredentialStore`, `RefreshLock`, `AccountTransport`, `AccountRuntime` and the three
-- interactions become one `Environment`, which fixes how each call turns out. Every call is numbered
-- by `step`, so an environment can behave differently each time: fail, answer, or let time pass.
pub mod Keeps
use kaleidoscope_sdk.Prelude.{
  is_some, if◌then◌else◌, Text, ℕ, suc, ◌+◌, Bool, true, false, ◌||◌, Option, none, some, List, ◌∷◌,
}
use kaleidoscope_sdk.JsonSpan.Value.{Bytes}
use kaleidoscope_sdk.Account.Error.{AccountError, AccountResult, ok, err, refresh_lock_unavailable}
use kaleidoscope_sdk.Account.Secret.{SecretString}
use kaleidoscope_sdk.Account.Url.{Url}
use kaleidoscope_sdk.Account.Store.{StoredCredential}
use kaleidoscope_sdk.Account.Wire.{WireRequest, WireResponse}
use kaleidoscope_sdk.Account.Model.{DeviceAuthorizationPrompt}

pub data OidcDocument : Type 0 where
  discovery_document jwks_document : OidcDocument

-- `PkceCallback`
pub record PkceCallback : Type 0 where
  pub redirect_uri : Url
  pub code : SecretString
  pub state : SecretString

pub record Environment : Type 0 where
  -- The outcome of the transport, by the requests that went before.
  pub reply : List WireRequest → WireRequest → ℕ → AccountResult WireResponse
  pub document : ℕ → OidcDocument → Url → ℕ → AccountResult WireResponse
  -- The error with which the credential store fails, if it does.
  pub load_fault : ℕ → Option AccountError
  pub save_fault : ℕ → Option AccountError
  pub delete_fault : ℕ → Option AccountError
  -- Another process holds the lock past the timeout.
  pub lock_contended : ℕ → Bool
  -- The seconds that a call takes, beside what `sleep` asks for.
  pub lag : ℕ → ℕ
  pub is_cancelled : ℕ → Bool
  pub random_bytes : ℕ → AccountResult Bytes
  pub redirect : ℕ → Text → AccountResult Url
  pub callback : ℕ → Url → ℕ → AccountResult PkceCallback
  pub shown : ℕ → DeviceAuthorizationPrompt → AccountResult (Unit {0})
  pub opened : ℕ → Url → AccountResult (Unit {0})

pub record World : Type 0 where
  pub stored : Option StoredCredential
  pub held : Bool
  -- The latest request first.
  pub sent : List WireRequest
  pub clock : ℕ
  pub step : ℕ

abbrev pub Action {ℓ} : Type ℓ → Type ℓ
Action A = World → AccountResult A × World

module _ {ℓ} {A : Type ℓ} where
  unfoldable pub pure : A → Action A
  pure a w = (ok a, w)

  unfoldable pub raise : AccountError → Action A
  raise e w = (err e, w)

  unfoldable pub lift : AccountResult A → Action A
  lift r w = (r, w)

module _ {ℓ κ} {A : Type ℓ} {B : Type κ} where
  -- What follows a call, by how it ended.
  abbrev pub after : AccountResult A → (A → Action B) → Action B
  after (ok a) f w = f a w
  after (err e) f w = (err e, w)

infixl 5 ◌>>=◌ ◌>>◌
unfoldable pub ◌>>=◌ {ℓ κ} : {A : Type ℓ} {B : Type κ} → Action A → (A → Action B) → Action B
◌>>=◌ m f w = let (r, w') = m w in after r f w'

abbrev pub ◌>>◌ {ℓ κ} : {A : Type ℓ} {B : Type κ} → Action A → Action B → Action B
m >> k = m >>= λ _. k

-- `match action { Ok(a) => .., Err(e) => .. }`, and `map_err`.
unfoldable pub attempt {ℓ} : {A : Type ℓ} → Action A → Action (AccountResult A)
attempt m w = let (r, w') = m w in (ok r, w')

-- `let _ = action;`
unfoldable pub ignore {ℓ} : {A : Type ℓ} → Action A → Action (Unit {0})
ignore m w = let (r, w') = m w in (ok tt, w')

unfoldable pub refuse_when : Bool → AccountError → Action (Unit {0})
refuse_when true e w = (err e, w)
refuse_when false e w = (ok tt, w)

module _ (env : Environment) where
  -- One call of the environment: its number goes up, and time passes.
  abbrev pub tick : World → World
  tick w = record w { clock = w.clock + env.lag w.step; step = suc w.step }

  -- A failing call, or its result.
  abbrev pub unless {ℓ} :
      {A : Type ℓ} → Option AccountError → World → A → World → AccountResult A × World
  unless none failed a done = (ok a, done)
  unless (some e) failed a done = (err e, failed)

  unfoldable pub load : Action (Option StoredCredential)
  load w = unless (env.load_fault w.step) (tick w) w.stored (tick w)

  unfoldable pub save : StoredCredential → Action (Unit {0})
  save c w = unless (env.save_fault w.step) (tick w) tt (record (tick w) { stored = some c })

  unfoldable pub delete : Action Bool
  delete w =
      unless (env.delete_fault w.step) (tick w) (is_some w.stored)
        (record (tick w) { stored = none })

  -- The lock is not reentrant: a holder that asks again waits for itself until the timeout.
  unfoldable pub acquire : ℕ → Action (Unit {0})
  acquire timeout w =
      if w.held || env.lock_contended w.step
      then (err refresh_lock_unavailable, tick w)
      else (ok tt, record (tick w) { held = true })

  unfoldable pub release : World → World
  release w = record (tick w) { held = false }

  -- `let _release = RefreshRelease(..)`: the lock is given back however the rest ends.
  unfoldable pub releasing {ℓ} : {A : Type ℓ} → Action A → Action A
  unfolding release
  releasing m w = let (r, w') = m w in (r, release w')

  unfoldable pub send : WireRequest → ℕ → Action WireResponse
  send request deadline w =
      (env.reply w.sent request deadline, record (tick w) { sent = request ∷ w.sent })

  unfoldable pub get_oidc_document : OidcDocument → Url → ℕ → Action WireResponse
  get_oidc_document kind url deadline w = (env.document w.step kind url deadline, tick w)

  unfoldable pub now_unix : Action ℕ
  now_unix w = (ok w.clock, tick w)

  unfoldable pub cancelled : Action Bool
  cancelled w = (ok (env.is_cancelled w.step), tick w)

  unfoldable pub sleep : ℕ → Action (Unit {0})
  sleep duration w = (ok tt, record (tick w) { clock = w.clock + env.lag w.step + duration })

  unfoldable pub fill_random : Action Bytes
  fill_random w = (env.random_bytes w.step, tick w)

  unfoldable pub prepare_redirect : Text → Action Url
  prepare_redirect path w = (env.redirect w.step path, tick w)

  unfoldable pub authorize : Url → ℕ → Action PkceCallback
  authorize url deadline w = (env.callback w.step url deadline, tick w)

  unfoldable pub display_prompt : DeviceAuthorizationPrompt → Action (Unit {0})
  display_prompt prompt w = (env.shown w.step prompt, tick w)

  unfoldable pub open_link : Url → Action (Unit {0})
  open_link url w = (env.opened w.step url, tick w)
