-- ===== src/Account/Action/Keeps.antt =====
-- Invariants of actions (Account.Action), by one rule for each way to build an action.
use kaleidoscope_sdk.Account.Url.{Url}
use kaleidoscope_sdk.Account.Model.{DeviceAuthorizationPrompt}
use kaleidoscope_sdk.Account.Store.{StoredCredential}
use kaleidoscope_sdk.Prelude.{if◌then◌else◌, Text, ℕ, Bool, true, false, Option, none, some}
use kaleidoscope_sdk.Account.Error.{AccountError, AccountResult, ok, err}
use kaleidoscope_sdk.Account.Action
use kaleidoscope_sdk.Account.Action.{
  ◌>>=◌, Environment, World, Action, after, pure, raise, lift, attempt, ignore, refuse_when, tick,
  get_oidc_document, now_unix, fill_random, prepare_redirect, authorize, display_prompt, open_link,
  unless, load,
}

-- However the action ends, the property still holds.
pub record Keeps {ℓ} {A : Type ℓ} (P : World → Type 0) (m : Action A) : Type ℓ where
  pub holds : (w : World) → P w → P (m w).1

module _ {P : World → Type 0} where
  module _ {ℓ} {A : Type ℓ} where
    pub Keeps-lift : (r : AccountResult A) → Keeps P (lift r)
    unfolding lift
    Keeps-lift r = record { holds = λ w kept. kept }

    pub Keeps-if :
        (test : Bool) (m n : Action A) → Keeps P m → Keeps P n → Keeps P (if test then m else n)
    Keeps-if true m n left right = left
    Keeps-if false m n left right = right

    pub Keeps-ignore : (m : Action A) → Keeps P m → Keeps P (ignore m)
    unfolding ignore
    Keeps-ignore m inner = record { holds = inner.holds }

    pub Keeps-pure : (a : A) → Keeps P (pure a)
    unfolding pure
    Keeps-pure a = record { holds = λ w kept. kept }

    pub Keeps-attempt : (m : Action A) → Keeps P m → Keeps P (attempt m)
    unfolding attempt
    Keeps-attempt m inner = record { holds = inner.holds }

    pub Keeps-raise : (e : AccountError) → Keeps P (raise {A = A} e)
    unfolding raise
    Keeps-raise e = record { holds = λ w kept. kept }

  pub Keeps-refuse_when : (b : Bool) (e : AccountError) → Keeps P (refuse_when b e)
  unfolding refuse_when
  Keeps-refuse_when true e = record { holds = λ w kept. kept }
  Keeps-refuse_when false e = record { holds = λ w kept. kept }

  module _ {ℓ κ} {A : Type ℓ} {B : Type κ} (next : A → Action B)
      (later : (a : A) → Keeps P (next a)) where
    Keeps-after : (r : AccountResult A) (w : World) → P w → P (after r next w).1
    Keeps-after (err e) w kept = kept
    Keeps-after (ok a) w kept = (later a).holds w kept

  pub Keeps-bind {ℓ κ} :
      {A : Type ℓ} {B : Type κ} (m : Action A) (next : A → Action B)
      → Keeps P m
      → ((a : A) → Keeps P (next a))
      → Keeps P (m >>= next)
  unfolding ◌>>=◌
  Keeps-bind m next first later = record {
    holds = λ w kept. let (r, w') = m w in Keeps-after next later r w' (first.holds w kept);
  }

-- What survives a call that only lets time pass.
module _ {P : World → Type 0} (env : Environment)
    (steady : (w : World) → P w → P (tick env w)) where
  pub Keeps-now_unix : Keeps P (now_unix env)
  unfolding now_unix
  Keeps-now_unix = record { holds = steady }

  pub Keeps-cancelled : Keeps P (Action.cancelled env)
  unfolding Action.cancelled
  Keeps-cancelled = record { holds = steady }

  pub Keeps-fill_random : Keeps P (fill_random env)
  unfolding fill_random
  Keeps-fill_random = record { holds = steady }

  pub Keeps-get_oidc_document :
      (kind : Action.OidcDocument) (url : Url) (deadline : ℕ)
      → Keeps P (get_oidc_document env kind url deadline)
  unfolding get_oidc_document
  Keeps-get_oidc_document kind url deadline = record { holds = steady }

  pub Keeps-prepare_redirect : (path : Text) → Keeps P (prepare_redirect env path)
  unfolding prepare_redirect
  Keeps-prepare_redirect path = record { holds = steady }

  pub Keeps-authorize : (url : Url) (deadline : ℕ) → Keeps P (authorize env url deadline)
  unfolding authorize
  Keeps-authorize url deadline = record { holds = steady }

  pub Keeps-display_prompt : (p : DeviceAuthorizationPrompt) → Keeps P (display_prompt env p)
  unfolding display_prompt
  Keeps-display_prompt p = record { holds = steady }

  pub Keeps-open_link : (url : Url) → Keeps P (open_link env url)
  unfolding open_link
  Keeps-open_link url = record { holds = steady }

  pub Keeps-load : Keeps P (load env)
  unfolding load
  Keeps-load = record { holds = λ w h. unless-holds (env.load_fault w.step) w w.stored h }
    where
      unless-holds :
          (o : Option AccountError) (w : World) (s : Option StoredCredential)
          → P w
          → P (unless env o (tick env w) s (tick env w)).1
      unless-holds none w s h = steady w h
      unless-holds (some e) w s h = steady w h

pub ruleset keeps_rules = (
  Keeps-pure, Keeps-raise, Keeps-lift, Keeps-attempt, Keeps-ignore, Keeps-if, Keeps-refuse_when,
  Keeps-bind,
)

pub ruleset call_rules = (
  Keeps-now_unix, Keeps-cancelled, Keeps-fill_random, Keeps-get_oidc_document,
  Keeps-prepare_redirect, Keeps-authorize, Keeps-display_prompt, Keeps-open_link, Keeps-load,
)
