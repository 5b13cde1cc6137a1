-- ===== src/Account/Url.antt =====
-- A `url::Url`, of another crate, by what its accessors return; two of them are equal when their
-- serializations are. `is_loopback` is that of `std::net`.
use kaleidoscope_sdk.Prelude.{◌==◌, bytes_eq, Text, ℕ, ◌/◌, ◌^◌, Bool, false, Option, none, some}

pub data Host : Type 0 where
  domain : Text → Host
  ipv4 : ℕ → Host
  ipv6 : ℕ → Host

pub record Url : Type 0 where
  pub scheme : Text
  pub host_str : Option Text
  pub host : Option Host
  pub username : Text
  pub password : Option Text
  pub port : Option ℕ
  pub path : Text
  pub query : Option Text
  pub fragment : Option Text
  pub origin : Text
  pub serialization : Text

unfoldable pub url_eq : Url → Url → Bool
url_eq a b = bytes_eq a.serialization b.serialization

-- An IPv4 address is loopback in 127.0.0.0/8, an IPv6 address at ::1.
unfoldable pub is_loopback : Option Host → Bool
is_loopback none = false
is_loopback (some (domain d)) = false
is_loopback (some (ipv4 a)) = a / 2 ^ 24 == 127
is_loopback (some (ipv6 a)) = a == 1
