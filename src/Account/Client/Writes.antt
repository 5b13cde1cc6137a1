-- ===== src/Account/Client/Writes.antt =====
-- The parts of `AccountClient` (src/account/client.rs) that write the credential store: they keep
-- every property that survives a write besides what Account.Client.Steady asks for.
use kaleidoscope_sdk.Prelude.{◌≡◌, Option, none, some}
use kaleidoscope_sdk.Account.Error.{AccountResult, AccountError, ok, err}
use kaleidoscope_sdk.Account.Wire.{WireRequest, WireResponse, validate_request}
use kaleidoscope_sdk.Account.Request.Checked.{checked_requests}
use kaleidoscope_sdk.Account.Store.{StoredCredential}
use kaleidoscope_sdk.Account.Action.{World, tick, save, delete, unless}
use kaleidoscope_sdk.Account.Action.Keeps.{Keeps, keeps_rules, call_rules}
use kaleidoscope_sdk.Account.Client.{AccountClient, ActiveSession}
use kaleidoscope_sdk.Account.Client.Steady.{
  after_send, Keeps-attempt_send, Keeps-fresh_secret, Keeps-discover_provider,
  Keeps-validate_session, Keeps-best_effort_revoke,
}
use kaleidoscope_sdk.Account.Client.Refresh.{
  drop_if_revoked, accept_refresh, keep_rotated, refresh_held, publish_saved, publish_login,
}

module _ (client : AccountClient) {P : World → Type 0}
    (steady : (w : World) → P w → P (tick client.env w))
    (sends : (r : WireRequest)
      → validate_request client.json client.uuid r ≡ ok tt
      → (w : World) → P w
      → P (after_send client r w))
    (writes : (w : World) (s : Option StoredCredential) → P w → P (record w { stored = s })) where
  Keeps-unless {ℓ} :
      {A : Type ℓ} (o : Option AccountError) (failed done : World) (a : A)
      → P failed
      → P done
      → P (unless client.env o failed a done).1
  Keeps-unless none failed done a h k = k
  Keeps-unless (some e) failed done a h k = h

  pub Keeps-save : (c : StoredCredential) → Keeps P (save client.env c)
  unfolding save
  Keeps-save c = record {
    holds = λ w h.
        Keeps-unless (client.env.save_fault w.step) (tick client.env w) _ tt (steady w h)
          (writes (tick client.env w) (some c) (steady w h));
  }

  pub Keeps-delete : Keeps P (delete client.env)
  unfolding delete
  Keeps-delete = record {
    holds = λ w h.
        Keeps-unless (client.env.delete_fault w.step) (tick client.env w) _ _ (steady w h)
          (writes (tick client.env w) none (steady w h));
  }

  Keeps-drop_if_revoked {ℓ} :
      {A : Type ℓ} (e : AccountError) → Keeps P (drop_if_revoked client {A = A} e)
  unfolding drop_if_revoked
  Keeps-drop_if_revoked e = search (keeps_rules, Keeps-delete)

  Keeps-accept_refresh : (r : AccountResult WireResponse) → Keeps P (accept_refresh client r)
  unfolding accept_refresh
  Keeps-accept_refresh (ok r) = search (keeps_rules, Keeps-drop_if_revoked)
  Keeps-accept_refresh (err e) = search (keeps_rules, Keeps-drop_if_revoked)

  Keeps-keep_rotated :
      (s : ActiveSession) (r : AccountResult (Unit {0})) → Keeps P (keep_rotated client s r)
  unfolding keep_rotated
  Keeps-keep_rotated s (ok r) = search (keeps_rules)
  Keeps-keep_rotated s (err e) =
      search (keeps_rules, Keeps-best_effort_revoke, steady, sends, Keeps-delete)

  pub Keeps-refresh_held : Keeps P (refresh_held client)
  unfolding refresh_held
  Keeps-refresh_held =
      search
        (
          Keeps-attempt_send, keeps_rules, call_rules, steady, sends, Keeps-discover_provider,
          Keeps-fresh_secret, checked_requests, Keeps-accept_refresh, Keeps-validate_session,
          Keeps-save, Keeps-keep_rotated,
        )
        depth 60 fits 5000

  Keeps-publish_saved :
      (s : ActiveSession) (r : AccountResult (Unit {0})) → Keeps P (publish_saved client s r)
  unfolding publish_saved
  Keeps-publish_saved s (ok r) = search (keeps_rules)
  Keeps-publish_saved s (err e) = search (keeps_rules, Keeps-best_effort_revoke, steady, sends)

  pub Keeps-publish_login : (s : ActiveSession) → Keeps P (publish_login client s)
  unfolding publish_login
  Keeps-publish_login s = search (keeps_rules, Keeps-save, Keeps-publish_saved)
