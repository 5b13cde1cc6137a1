-- ===== src/Account/Model.antt =====
-- src/account/model.rs: the modes, states, results and displays of the account client. A UUID is
-- its 128-bit value, and the nil UUID is 0.
use kaleidoscope_sdk.Prelude.{
  leb, ◌==◌, length, get_elem?, all, Text, codes, has_control, is_empty, starts_with, ℕ, String,
  Bool, false, not, ◌&&◌, ◌||◌, Option, none, some, [], ◌∷◌,
}
use kaleidoscope_sdk.Account.Url.{Url}

pub data LogoutScope : Type 0 where
  current_session all_devices : LogoutScope

pub data LocalLogoutPolicy : Type 0 where
  require_remote_revocation confirmed_local_only : LocalLogoutPolicy

pub data AccountState : Type 0 where
  signed_out online offline_stale revoked : AccountState

pub record AccountStatus : Type 0 where
  pub version : ℕ
  pub state : AccountState
  pub account_id : Option ℕ
  pub device_id : Option ℕ
  pub stale : Bool

-- `AccountStatus::signed_out`
abbrev pub signed_out_status : AccountState → AccountStatus
signed_out_status s = record {
  version = 1;
  state = s;
  account_id = none;
  device_id = none;
  stale = false;
}

pub record LoginResult : Type 0 where
  pub version : ℕ
  pub status : String
  pub account_id : ℕ
  pub device_id : ℕ

pub record LogoutResult : Type 0 where
  pub version : ℕ
  pub status : String
  pub remote_revoked : Bool
  pub local_credential_removed : Bool
  pub warning : Option String

pub record LinkResult : Type 0 where
  pub version : ℕ
  pub status : String
  pub verification_uri : Url
  pub expires_at : ℕ

pub record UnlinkResult : Type 0 where
  pub version : ℕ
  pub status : String
  pub external_identity_id : ℕ

pub record ExternalIdentitySummary : Type 0 where
  pub external_identity_id : ℕ
  pub issuer : Url
  pub linked_at : ℕ

pub data DevicePlatform : Type 0 where
  macos windows linux : DevicePlatform

pub record DeviceSummary : Type 0 where
  pub device_id : ℕ
  pub label : Text
  pub platform : DevicePlatform
  pub created_at : ℕ
  pub last_seen_at : ℕ
  pub revoked : Bool

pub record DeviceRevokeResult : Type 0 where
  pub version : ℕ
  pub status : String
  pub device_id : ℕ

pub record DeviceDisplay : Type 0 where
  pub product_name : Text
  pub device_label : Text
  pub platform : DevicePlatform
  pub application_version : Text

pub record DeviceAuthorizationPrompt : Type 0 where
  pub user_code : Text
  pub verification_uri : Url
  pub expires_at : ℕ
  pub interval_seconds : ℕ
  pub display : DeviceDisplay

-- `looks_like_absolute_path`, which src/account/protocol.rs repeats.
unfoldable pub looks_like_absolute_path : Text → Bool
unfolding starts_with
looks_like_absolute_path value =
    starts_with value (codes "/")
    || starts_with value (codes "~/")
    || starts_with value (0x5C ∷ 0x5C ∷ [])
    || (elim (get_elem? value 1) [ none ↦ false | some c ↦ c == b':' ]
        && elim (get_elem? value 2) [ none ↦ false | some c ↦ c == b'/' || c == 0x5C ])

unfoldable pub display_text_valid : Text → Bool
unfolding looks_like_absolute_path has_control
display_text_valid value =
    not (is_empty value)
    && leb (length value) 100
    && not (has_control value)
    && not (looks_like_absolute_path value)

-- `DeviceDisplay::validate`
unfoldable pub display_valid : DeviceDisplay → Bool
display_valid d =
    all display_text_valid (d.product_name ∷ d.device_label ∷ d.application_version ∷ [])
