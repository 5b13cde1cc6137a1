-- ===== src/Account/Client/Polling.antt =====
-- The polling interval of `login_device` (src/account/client.rs).
use kaleidoscope_sdk.Prelude.{ℕ, ◌≡◌, ◌≤◌, ◌⊎◌, inl, inr, ◌==◌, Bool-cases, arith}
use kaleidoscope_sdk.Account.Error.{AccountResult, ok, err-ne-ok}
use kaleidoscope_sdk.Account.Secret.{SecretString}
use kaleidoscope_sdk.Account.Model.{LoginResult}
use kaleidoscope_sdk.Account.Wire.{
  WireResponse, DevicePollError, pending, slow_down, denied, expired, poll_cancelled,
  device_poll_error,
}
use kaleidoscope_sdk.Account.Request.{poll_device_request}
use kaleidoscope_sdk.Account.Oidc.{ValidatedProvider}
use kaleidoscope_sdk.Account.Action.{World, lift, sleep, pure, raise}
use kaleidoscope_sdk.Account.Client.{AccountClient, send_request, validate_session}
use kaleidoscope_sdk.Account.Client.Refresh.{publish_login}
use kaleidoscope_sdk.Account.Client.Login.{
  next_interval, slower, poll_success, poll_answer, poll_round, still_waiting,
}
use kaleidoscope_sdk.Account.Client.Lineage.{>>=-ends}

slower_bounds : (n : ℕ) → n ≤ 30 → (n ≤ slower n) × (slower n ≤ 30)
unfolding slower
slower_bounds n h = (omega arith, omega arith)

again_eq : (a b : ℕ) → ◌≡◌ {A = AccountResult (LoginResult ⊎ ℕ)} (ok (inr a)) (ok (inr b)) → a ≡ b
again_eq a b h = ground (arith, h)

done_ne_again :
    (r : LoginResult) (n : ℕ)
    → ◌≡◌ {A = AccountResult (LoginResult ⊎ ℕ)} (ok (inl r)) (ok (inr n))
    → ⊥
done_ne_again r n h = cc

module _ (client : AccountClient) where
  next_interval_bounds :
      (interval n : ℕ) (e : DevicePollError) (w : World)
      → interval ≤ 30
      → (next_interval client interval e w).0 ≡ ok (inr n)
      → (interval ≤ n) × (n ≤ 30)
  unfolding next_interval pure raise
  next_interval_bounds interval n pending w l h =
      let e = again_eq interval n h in (omega (arith, e), omega (arith, e))
  next_interval_bounds interval n slow_down w l h =
      let e = again_eq (slower interval) n h in
      let (low, high) = slower_bounds interval l in (omega (arith, e, low), omega (arith, e, high))
  next_interval_bounds interval n denied w l h = absurd (err-ne-ok h)
  next_interval_bounds interval n expired w l h = absurd (err-ne-ok h)
  next_interval_bounds interval n poll_cancelled w l h = absurd (err-ne-ok h)

  poll_success-ne-again :
      (provider : ValidatedProvider) (nonce : SecretString) (response : WireResponse) (w : World)
      (n : ℕ)
      → (poll_success client provider nonce response w).0 ≡ ok (inr n)
      → ⊥
  unfolding poll_success pure
  poll_success-ne-again provider nonce response w n h =
      let (session, _, h1) = >>=-ends (validate_session client response provider nonce _) _ w h in
      let (result, _, h2) = >>=-ends (publish_login client session) _ _ h1 in
      done_ne_again result n h2

  answer_bounds :
      (provider : ValidatedProvider) (nonce : SecretString) (interval n : ℕ)
      (response : WireResponse) (w : World)
      → interval ≤ 30
      → (poll_answer client provider nonce interval response w).0 ≡ ok (inr n)
      → (interval ≤ n) × (n ≤ 30)
  unfolding poll_answer
  answer_bounds provider nonce interval n response w l h =
      elim (Bool-cases (response.status == 200)) [
        | inl good ↦ absurd (poll_success-ne-again provider nonce response w n (rw good at h))
        | inr bad ↦
            let (e, _, h1) =
              >>=-ends (lift (device_poll_error client.json response)) _ w (rw bad at h) in
            next_interval_bounds interval n e _ l h1
      ]

  -- A round of polling that asks for another round leaves the interval as it is or lengthens it, and
  -- never beyond 30 seconds, if it was at most that before.
  pub poll_round_bounds :
      (provider : ValidatedProvider) (nonce device_code : SecretString) (deadline interval n : ℕ)
      (w : World)
      → interval ≤ 30
      → (poll_round client provider nonce device_code deadline interval w).0 ≡ ok (inr n)
      → (interval ≤ n) × (n ≤ 30)
  unfolding poll_round
  poll_round_bounds provider nonce device_code deadline interval n w l h =
      let (_, _, h1) = >>=-ends (still_waiting client deadline) _ w h in
      let (_, _, h2) = >>=-ends (sleep client.env interval) _ _ h1 in
      let (_, _, h3) = >>=-ends (still_waiting client deadline) _ _ h2 in
      let (response, _, h4) =
        >>=-ends
          (send_request client
            (poll_device_request client.json client.uuid client.config.public_client_id device_code)
            deadline)
          _ _ h3 in
      answer_bounds provider nonce interval n response _ l h4
