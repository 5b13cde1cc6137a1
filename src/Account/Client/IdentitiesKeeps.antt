-- ===== src/Account/Client/IdentitiesKeeps.antt =====
-- `external_identities` of src/account/client.rs keeps what the other operations keep.
use kaleidoscope_sdk.Prelude.{◌≡◌, Bool, true, false, List, [], ◌∷◌}
use kaleidoscope_sdk.Account.Error.{ok}
use kaleidoscope_sdk.Account.Model.{ExternalIdentitySummary}
use kaleidoscope_sdk.Account.Wire.{WireRequest, validate_request}
use kaleidoscope_sdk.Account.Request.Checked.{list_external_identities_request-IsChecked}
use kaleidoscope_sdk.Account.Action.{Action, World, tick}
use kaleidoscope_sdk.Account.Action.Keeps.{Keeps, keeps_rules, call_rules, Keeps-bind, Keeps-pure}
use kaleidoscope_sdk.Account.Client.{AccountClient}
use kaleidoscope_sdk.Account.Client.Steady.{after_send, Keeps-send_request}
use kaleidoscope_sdk.Account.Client.Refresh.{refresh_access}
use kaleidoscope_sdk.Account.Client.Identities.{
  identity_broken, or_rest, any_broken, identities_refused, external_identities,
}

module _ (client : AccountClient) {P : World → Type 0}
    (steady : (w : World) → P w → P (tick client.env w))
    (sends : (r : WireRequest)
      → validate_request client.json client.uuid r ≡ ok tt
      → (w : World) → P w
      → P (after_send client r w))
    (refreshes : Keeps P (refresh_access client)) where
  Keeps-identity_broken : (i : ExternalIdentitySummary) → Keeps P (identity_broken client i)
  unfolding identity_broken
  Keeps-identity_broken i = search (keeps_rules, call_rules, steady)

  Keeps-or_rest :
      (broken : Bool) (rest : Action Bool) → Keeps P rest → Keeps P (or_rest client broken rest)
  Keeps-or_rest true rest keeps = Keeps-pure _
  Keeps-or_rest false rest keeps = keeps

  Keeps-any_broken : (is : List ExternalIdentitySummary) → Keeps P (any_broken client is)
  unfolding any_broken
  Keeps-any_broken [] = Keeps-pure _
  Keeps-any_broken (i ∷ is) =
      Keeps-bind _ _ (Keeps-identity_broken i)
        (λ broken. Keeps-or_rest broken _ (Keeps-any_broken is))

  Keeps-identities_refused :
      (is : List ExternalIdentitySummary) → Keeps P (identities_refused client is)
  unfolding identities_refused
  Keeps-identities_refused is = search (keeps_rules, Keeps-any_broken)

  pub Keeps-external_identities : Keeps P (external_identities client)
  unfolding external_identities
  Keeps-external_identities = Keeps-bind _ _ refreshes (λ a.
      Keeps-bind _ _
        (Keeps-send_request client steady sends _ _
          (list_external_identities_request-IsChecked client.json client.uuid a.access_token))
        (λ response. search (keeps_rules, Keeps-identities_refused) depth 40))
