-- ===== src/Account/Secret.antt =====
-- src/account/secret.rs: `SecretString`, whose content the model shows; that formatting redacts it
-- is not modelled. `ct_eq` of the crate `subtle` is equality of bytes.
use kaleidoscope_sdk.Prelude.{
  leb, length, any, bytes_eq, Text, is_ascii, is_ascii_whitespace, Bool, not, ◌&&◌,
}

pub record SecretString : Type 0 where
  pub expose : Text

-- `SecretString::constant_time_eq`
unfoldable pub constant_time_eq : SecretString → SecretString → Bool
constant_time_eq a b = bytes_eq a.expose b.expose

-- `SecretString::is_bounded_ascii`
unfoldable pub is_bounded_ascii : SecretString → Bool
unfolding is_ascii is_ascii_whitespace
is_bounded_ascii s =
    (leb 32 (length s.expose) && leb (length s.expose) 4096)
    && is_ascii s.expose
    && not (any is_ascii_whitespace s.expose)
