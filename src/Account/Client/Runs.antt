-- ===== src/Account/Client/Runs.antt =====
-- Sequences of operations of `AccountClient` (src/account/client.rs), as a step relation on worlds,
-- and what holds after any such sequence.
use kaleidoscope_sdk.Prelude.{
  refl, if◌then◌else◌, Text, ℕ, ◌≡◌, Bool, true, false, ◌||◌, Option, some, List, [], ◌∷◌,
}
use kaleidoscope_sdk.Account.Error.{AccountResult, ok, err, refresh_lock_unavailable}
use kaleidoscope_sdk.Account.Model.{DeviceDisplay, LoginResult, LogoutScope, LocalLogoutPolicy}
use kaleidoscope_sdk.Account.Endpoint.{UuidText}
use kaleidoscope_sdk.Account.Wire.{Json, WireRequest, validate_request}
use kaleidoscope_sdk.Account.Request.Safe.{IsSafe, validate_request-IsSafe}
use kaleidoscope_sdk.Account.Store.{StoredCredential}
use kaleidoscope_sdk.Account.Action.{◌>>=◌, World, tick, acquire, release, releasing}
use kaleidoscope_sdk.Account.Action.Keeps.{Keeps}
use kaleidoscope_sdk.Account.Client.{AccountClient}
use kaleidoscope_sdk.Account.Client.Steady.{after_send}
use kaleidoscope_sdk.Account.Client.Writes.{Keeps-refresh_held}
use kaleidoscope_sdk.Account.Client.Refresh.{refresh_held, refresh_access}
use kaleidoscope_sdk.Account.Client.Login.{login_pkce, login_device}
use kaleidoscope_sdk.Account.Client.LoginKeeps.{Keeps-login_pkce, login_device-keeps}
use kaleidoscope_sdk.Account.Client.Session.{status, logout, link, unlink, devices, revoke_device}
use kaleidoscope_sdk.Account.Client.SessionKeeps.{
  Keeps-status, Keeps-logout, Keeps-link, Keeps-unlink, Keeps-devices, Keeps-revoke_device,
}
use kaleidoscope_sdk.Account.Client.Identities.{external_identities}
use kaleidoscope_sdk.Account.Client.IdentitiesKeeps.{Keeps-external_identities}

-- One operation, however it ends. The device login is run with any fuel that lets it end.
pub data Step (client : AccountClient) : World → World → Type 0 where
  by_login_pkce : (d : DeviceDisplay) (w : World) → Step client w (login_pkce client d w).1
  by_login_device :
      (fuel : ℕ) (d : DeviceDisplay) (w v : World) (r : AccountResult LoginResult)
      → ◌≡◌ {A = Option (AccountResult LoginResult × World)}
          (login_device client fuel d w)
          (some (r, v))
      → Step client w v
  by_status : (w : World) → Step client w (status client w).1
  by_logout :
      (scope : LogoutScope) (policy : LocalLogoutPolicy) (w : World)
      → Step client w (logout client scope policy w).1
  by_link : (provider : Text) (w : World) → Step client w (link client provider w).1
  by_unlink : (id : ℕ) (w : World) → Step client w (unlink client id w).1
  by_external_identities : (w : World) → Step client w (external_identities client w).1
  by_devices : (w : World) → Step client w (devices client w).1
  by_revoke_device : (id : ℕ) (w : World) → Step client w (revoke_device client id w).1

-- Operations one after the other.
pub data Runs (client : AccountClient) : World → World → Type 0 where
  stay : (w : World) → Runs client w w
  go_on : (w v u : World) → Runs client w v → Step client v u → Runs client w u

module _ (client : AccountClient) {P : World → Type 0}
    (steady : (w : World) → P w → P (tick client.env w))
    (sends : (r : WireRequest)
      → validate_request client.json client.uuid r ≡ ok tt
      → (w : World) → P w
      → P (after_send client r w))
    (writes : (w : World) (s : Option StoredCredential) → P w → P (record w { stored = s })) where
  module _ (times : (w : World) (n : ℕ) → P w → P (record w { clock = n }))
      (refreshes : Keeps P (refresh_access client)) where
    step-keeps : (w v : World) → Step client w v → P w → P v
    step-keeps _ _ (by_login_pkce d w) h = (Keeps-login_pkce client steady sends writes d).holds w h
    step-keeps _ _ (by_login_device fuel d w v r e) h =
        login_device-keeps client steady sends writes times fuel d w v r e h
    step-keeps _ _ (by_status w) h = (Keeps-status client steady sends writes refreshes).holds w h
    step-keeps _ _ (by_logout scope policy w) h =
        (Keeps-logout client steady sends writes refreshes scope policy).holds w h
    step-keeps _ _ (by_link provider w) h =
        (Keeps-link client steady sends writes refreshes provider).holds w h
    step-keeps _ _ (by_unlink id w) h =
        (Keeps-unlink client steady sends writes refreshes id).holds w h
    step-keeps _ _ (by_external_identities w) h =
        (Keeps-external_identities client steady sends refreshes).holds w h
    step-keeps _ _ (by_devices w) h = (Keeps-devices client steady sends writes refreshes).holds w h
    step-keeps _ _ (by_revoke_device id w) h =
        (Keeps-revoke_device client steady sends writes refreshes id).holds w h

    runs-keep : (w v : World) → Runs client w v → P w → P v
    runs-keep _ _ (stay w) h = h
    runs-keep _ _ (go_on w v u runs step) h = step-keeps v u step (runs-keep w v runs h)

  module _ (locks : (w : World) (b : Bool) → P w → P (record w { held = b })) where
    Keeps-refresh_access : Keeps P (refresh_access client)
    unfolding refresh_access acquire releasing release ◌>>=◌
    Keeps-refresh_access = record {
      holds = λ w h. locked (w.held || client.env.lock_contended w.step) w h;
    }
      where
        locked :
            (taken : Bool) (w : World)
            → P w
            → P
                (◌>>=◌ {0, 0}
                  (λ v.
                    if taken
                    then (err refresh_lock_unavailable, tick client.env v)
                    else (ok tt, record (tick client.env v) { held = true }))
                  (λ _. releasing client.env (refresh_held client))
                  w).1
        locked true w h = steady w h
        locked false w h = locks _ false (
            steady _
              ((Keeps-refresh_held client steady sends writes).holds _ (locks _ true (steady w h))))

-- All requests of a list are safe to send.
unfoldable pub AllSafe : Json → UuidText → List WireRequest → Type 0
AllSafe json uuid [] = Unit {0}
AllSafe json uuid (r ∷ rs) = IsSafe json uuid r × AllSafe json uuid rs

-- Whatever operations run one after the other, in whatever environment: if all requests sent before
-- them are safe, all requests sent after them are.
pub runs-AllSafe :
    (client : AccountClient) (w v : World)
    → Runs client w v
    → AllSafe client.json client.uuid w.sent
    → AllSafe client.json client.uuid v.sent
unfolding AllSafe
runs-AllSafe client w v runs h =
    runs-keep client {P = λ v. AllSafe client.json client.uuid v.sent} (λ v k. k)
      (λ r valid v k. (validate_request-IsSafe client.json client.uuid r valid, k)) (λ v s k. k)
      (λ v n k. k)
      (Keeps-refresh_access client (λ v k. k)
        (λ r valid v k. (validate_request-IsSafe client.json client.uuid r valid, k)) (λ v s k. k)
        (λ v b k. k))
      w v runs h

refresh_access-frees :
    (client : AccountClient) → Keeps (λ v. v.held ≡ false) (refresh_access client)
unfolding refresh_access acquire releasing release ◌>>=◌
refresh_access-frees client = record {
  holds = λ w h. locked (w.held || client.env.lock_contended w.step) w h;
}
  where
    locked :
        (taken : Bool) (w : World)
        → w.held ≡ false
        → (◌>>=◌ {0, 0}
            (λ v.
              if taken
              then (err refresh_lock_unavailable, tick client.env v)
              else (ok tt, record (tick client.env v) { held = true }))
            (λ _. releasing client.env (refresh_held client))
            w).1.held
          ≡ false
    locked true w h = h
    locked false w h = refl

-- Whatever operations run one after the other, in whatever environment: if the refresh lock is free
-- before them, it is free after them.
pub runs-free_lock :
    (client : AccountClient) (w v : World) → Runs client w v → w.held ≡ false → v.held ≡ false
runs-free_lock client w v runs h =
    runs-keep client {P = λ v. v.held ≡ false} (λ v k. k) (λ r valid v k. k) (λ v s k. k)
      (λ v n k. k) (refresh_access-frees client) w v runs h
