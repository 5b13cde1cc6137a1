-- ===== src/Account/Client/LoginKeeps.antt =====
-- The two logins of src/account/client.rs: they keep every property that survives the passing of
-- time, the sending of a validated request and a write to the credential store.
use kaleidoscope_sdk.Prelude.{ℕ, zero, suc, ◌≡◌, ◌⊎◌, inl, inr, Option, some, arith}
use kaleidoscope_sdk.Account.Error.{ok, err, AccountResult}
use kaleidoscope_sdk.Account.Model.{DeviceDisplay, LoginResult}
use kaleidoscope_sdk.Account.Wire.{
  WireRequest, WireResponse, DevicePollError, pending, slow_down, denied, expired, poll_cancelled,
  validate_request,
}
use kaleidoscope_sdk.Account.Request.Checked.{checked_requests}
use kaleidoscope_sdk.Account.Secret.{SecretString}
use kaleidoscope_sdk.Account.Oidc.{ValidatedProvider}
use kaleidoscope_sdk.Account.Store.{StoredCredential}
use kaleidoscope_sdk.Account.Action.{World, tick, sleep}
use kaleidoscope_sdk.Account.Action.Keeps.{Keeps, keeps_rules, call_rules}
use kaleidoscope_sdk.Account.Client.{AccountClient}
use kaleidoscope_sdk.Account.Client.Steady.{
  after_send, Keeps-send_request, Keeps-ensure_before, Keeps-ensure_signed_out, Keeps-fresh_secret,
  Keeps-discover_provider, Keeps-validate_session,
}
use kaleidoscope_sdk.Account.Client.Writes.{Keeps-publish_login}
use kaleidoscope_sdk.Account.Client.Login.{
  DeviceLogin, login_pkce, before_or_expired, still_waiting, next_interval, poll_success,
  poll_answer, poll_round, poll_loop, begin_device_login, login_device,
}

some-world :
    (r s : AccountResult LoginResult) (w v : World)
    → ◌≡◌ {A = Option (AccountResult LoginResult × World)} (some (r, w)) (some (s, v))
    → w ≡ v
some-world r s w v h = ground (arith, h)

module _ (client : AccountClient) {P : World → Type 0}
    (steady : (w : World) → P w → P (tick client.env w))
    (sends : (r : WireRequest)
      → validate_request client.json client.uuid r ≡ ok tt
      → (w : World) → P w
      → P (after_send client r w))
    (writes : (w : World) (s : Option StoredCredential) → P w → P (record w { stored = s })) where
  pub Keeps-login_pkce : (d : DeviceDisplay) → Keeps P (login_pkce client d)
  unfolding login_pkce
  Keeps-login_pkce d =
      search
        (
          keeps_rules, call_rules, steady, sends, writes, Keeps-ensure_signed_out,
          Keeps-discover_provider, Keeps-fresh_secret, Keeps-ensure_before, Keeps-send_request,
          checked_requests, Keeps-validate_session, Keeps-publish_login,
        )
        depth 60 fits 5000

  pub Keeps-begin_device_login : (d : DeviceDisplay) → Keeps P (begin_device_login client d)
  unfolding begin_device_login
  Keeps-begin_device_login d =
      search
        (
          keeps_rules, call_rules, steady, sends, Keeps-ensure_signed_out, Keeps-discover_provider,
          Keeps-fresh_secret, Keeps-send_request, checked_requests,
        )
        depth 60 fits 5000

  Keeps-still_waiting : (deadline : ℕ) → Keeps P (still_waiting client deadline)
  unfolding still_waiting before_or_expired
  Keeps-still_waiting deadline =
      search (keeps_rules, call_rules, steady, Keeps-ensure_before) depth 40

  Keeps-next_interval :
      (interval : ℕ) (e : DevicePollError) → Keeps P (next_interval client interval e)
  unfolding next_interval
  Keeps-next_interval interval pending = search (keeps_rules)
  Keeps-next_interval interval slow_down = search (keeps_rules)
  Keeps-next_interval interval denied = search (keeps_rules)
  Keeps-next_interval interval expired = search (keeps_rules)
  Keeps-next_interval interval poll_cancelled = search (keeps_rules)

  Keeps-poll_answer :
      (provider : ValidatedProvider) (nonce : SecretString) (interval : ℕ) (response : WireResponse)
      → Keeps P (poll_answer client provider nonce interval response)
  unfolding poll_answer poll_success
  Keeps-poll_answer provider nonce interval response =
      search
        (
          keeps_rules, steady, sends, writes, Keeps-validate_session, Keeps-publish_login,
          Keeps-next_interval,
        )
        depth 40

  module _ (times : (w : World) (n : ℕ) → P w → P (record w { clock = n })) where
    Keeps-sleep : (n : ℕ) → Keeps P (sleep client.env n)
    unfolding sleep
    Keeps-sleep n = record { holds = λ w h. times (tick client.env w) _ (steady w h) }

    Keeps-poll_round :
        (provider : ValidatedProvider) (nonce device_code : SecretString) (deadline interval : ℕ)
        → Keeps P (poll_round client provider nonce device_code deadline interval)
    unfolding poll_round
    Keeps-poll_round provider nonce device_code deadline interval =
        search
          (
            keeps_rules, steady, sends, Keeps-still_waiting, Keeps-sleep, Keeps-send_request,
            checked_requests, Keeps-poll_answer,
          )
          depth 40 fits 5000

    poll_loop-keeps :
        (fuel : ℕ) (provider : ValidatedProvider) (nonce device_code : SecretString)
        (deadline interval : ℕ) (w w' : World) (r : AccountResult LoginResult)
        → poll_loop client fuel provider nonce device_code deadline interval w ≡ some (r, w')
        → P w
        → P w'
    unfolding poll_loop
    poll_loop-keeps zero provider nonce device_code deadline interval w w' r e h = cc
    poll_loop-keeps (suc fuel) provider nonce device_code deadline interval w w' r e h =
        let round = poll_round client provider nonce device_code deadline interval w in
        let kept = (Keeps-poll_round provider nonce device_code deadline interval).holds w h in
        answered (round.0) (round.1) kept e
          (λ next v k e1. poll_loop-keeps fuel provider nonce device_code deadline next v w' r e1 k)
      where
        answered :
            (o : AccountResult (LoginResult ⊎ ℕ)) (w1 : World)
            → P w1
            → elim o as (λ _. Option (AccountResult LoginResult × World)) [
              | err x ↦ some (err x, w1)
              | ok answer ↦ elim answer as (λ _. Option (AccountResult LoginResult × World)) [
                | inl result ↦ some (ok result, w1)
                | inr next ↦ poll_loop client fuel provider nonce device_code deadline next w1
              ]
            ]
              ≡ some (r, w')
            → ((next : ℕ) (v : World)
                → P v
                → ◌≡◌ {A = Option (AccountResult LoginResult × World)}
                    (poll_loop client fuel provider nonce device_code deadline next v)
                    (some (r, w'))
                → P w')
            → P w'
        answered (err x) w1 kept e1 again = rw (some-world (err x) r w1 w' e1) at kept
        answered (ok (inl result)) w1 kept e1 again = rw (some-world (ok result) r w1 w' e1) at kept
        answered (ok (inr next)) w1 kept e1 again = again next w1 kept e1

    pub login_device-keeps :
        (fuel : ℕ) (d : DeviceDisplay) (w w' : World) (r : AccountResult LoginResult)
        → login_device client fuel d w ≡ some (r, w')
        → P w
        → P w'
    unfolding login_device
    login_device-keeps fuel d w w' r e h =
        begun (begin_device_login client d w).0 (begin_device_login client d w).1
          ((Keeps-begin_device_login d).holds w h) e
      where
        begun :
            (o : AccountResult DeviceLogin) (w1 : World)
            → P w1
            → elim o as (λ _. Option (AccountResult LoginResult × World)) [
              | err x ↦ some (err x, w1)
              | ok l ↦
                  poll_loop client fuel l.provider l.nonce l.device_code l.deadline l.interval w1
            ]
              ≡ some (r, w')
            → P w'
        begun (err x) w1 kept e1 = rw (some-world (err x) r w1 w' e1) at kept
        begun (ok l) w1 kept e1 =
            poll_loop-keeps fuel l.provider l.nonce l.device_code l.deadline l.interval w1 w' r e1
              kept
