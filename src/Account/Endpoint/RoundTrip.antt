-- ===== src/Account/Endpoint/RoundTrip.antt =====
-- The routes of src/account/protocol.rs: printing and parsing a route, and the published inventory.
use mathlib.Core.List.{reverse, reverse-append, reverse-reverse}
use kaleidoscope_sdk.Prelude.{
  Option-cases, bytes_eq, Text, codes, strip_prefix, strip_suffix, ℕ, ◌≡◌, refl, inl, inr, some, [],
  ◌∷◌, ◌++◌, arith,
}
use kaleidoscope_sdk.Account.Error.{ok, err-ne-ok, ok-injective}
use kaleidoscope_sdk.Account.Endpoint.{
  UuidText, AccountEndpoint, with_id, exchange_pkce, unlink_external_identity, revoke_device, post,
  method_of, fixed_endpoint, path_of, parse, HttpMethod, parse_with_id, delete, get,
}

strip_prefix-append : (p t : Text) → strip_prefix (p ++ t) p ≡ some t
unfolding strip_prefix
strip_prefix-append [] [] = refl
strip_prefix-append [] (c ∷ t) = refl
strip_prefix-append (c ∷ p) t = ground (arith, strip_prefix-append p t)

strip_suffix-append : (t s : Text) → strip_suffix (t ++ s) s ≡ some t
unfolding strip_suffix
strip_suffix-append t s =
    rw (reverse-append t s)
      (rw (strip_prefix-append (reverse s) (reverse t)) (rw reverse-reverse refl))

module _ (uuid : UuidText)
    (format_parses : (id : ℕ) → uuid.parse_str (uuid.format id) ≡ some id) where
  with_id-format :
      (make : ℕ → AccountEndpoint) (id : ℕ) → with_id uuid make (uuid.format id) ≡ ok (make id)
  unfolding with_id
  with_id-format make id = rw (format_parses id, with_id) refl

  parse_with_id-unlink :
      (id : ℕ)
      → parse_with_id uuid delete (codes "/v1/external-identities/" ++ uuid.format id)
        ≡ ok (unlink_external_identity id)
  unfolding parse_with_id
  parse_with_id-unlink id =
      rw (strip_prefix-append (codes "/v1/external-identities/") (uuid.format id), parse_with_id)
        (with_id-format unlink_external_identity id)

  parse_with_id-revoke_device :
      (id : ℕ)
      → parse_with_id uuid post (codes "/v1/devices/" ++ (uuid.format id ++ codes "/revoke"))
        ≡ ok (revoke_device id)
  unfolding parse_with_id
  parse_with_id-revoke_device id =
      rw
        (
          strip_prefix-append (codes "/v1/devices/") (uuid.format id ++ codes "/revoke"),
          strip_suffix-append (uuid.format id) (codes "/revoke"),
          parse_with_id,
        )
        (with_id-format revoke_device id)

  -- Where the text form of an identifier parses back to it, the method and the path of every
  -- endpoint parse back to that endpoint and to no other.
  pub parse-path_of : (e : AccountEndpoint) → parse uuid (method_of e) (path_of uuid e) ≡ ok e
  unfolding parse path_of method_of fixed_endpoint bytes_eq
  parse-path_of (unlink_external_identity id) = parse_with_id-unlink id
  parse-path_of (revoke_device id) = parse_with_id-revoke_device id
  parse-path_of exchange_pkce = refl
  parse-path_of _ = refl

fixed_endpoint-method_of :
    (method : HttpMethod) (path : Text) (e : AccountEndpoint)
    → fixed_endpoint method path ≡ some e
    → method_of e ≡ method
unfolding fixed_endpoint method_of
fixed_endpoint-method_of post path e h = ground arith
fixed_endpoint-method_of get path e h = ground arith
fixed_endpoint-method_of delete path e h = cc

with_id-eq_ok :
    (uuid : UuidText) (make : ℕ → AccountEndpoint) (path : Text) (e : AccountEndpoint)
    → with_id uuid make path ≡ ok e
    → (n : ℕ) × (make n ≡ e)
unfolding with_id
with_id-eq_ok uuid make path e h = elim (Option-cases (uuid.parse_str path)) [
  | inl bad ↦ absurd (err-ne-ok (rw (bad, with_id) at h))
  | inr (n, good) ↦ (n, ok-injective (rw (good, with_id) at h))
]

parse_with_id-method_of :
    (uuid : UuidText) (method : HttpMethod) (path : Text) (e : AccountEndpoint)
    → parse_with_id uuid method path ≡ ok e
    → method_of e ≡ method
unfolding method_of parse_with_id
parse_with_id-method_of uuid get path e h = cc
parse_with_id-method_of uuid delete path e h =
    elim (Option-cases (strip_prefix path (codes "/v1/external-identities/"))) [
      | inl bad ↦ absurd (err-ne-ok (rw (bad, parse_with_id) at h))
      | inr (id, found) ↦
          let (n, made) =
            with_id-eq_ok uuid unlink_external_identity id e (rw (found, parse_with_id) at h) in
          rw (← made) refl
    ]
parse_with_id-method_of uuid post path e h =
    elim (Option-cases (strip_prefix path (codes "/v1/devices/"))) [
      | inl bad ↦ absurd (err-ne-ok (rw (bad, parse_with_id) at h))
      | inr (tail, found) ↦ elim (Option-cases (strip_suffix tail (codes "/revoke"))) [
        | inl bad ↦ absurd (err-ne-ok (rw (found, bad, parse_with_id) at h))
        | inr (id, ended) ↦
            let (n, made) =
              with_id-eq_ok uuid revoke_device id e (rw (found, ended, parse_with_id) at h) in
            rw (← made) refl
      ]
    ]

-- A method and path that are accepted belong to an endpoint of the method that it came with.
pub parse-method_of :
    (uuid : UuidText) (method : HttpMethod) (path : Text) (e : AccountEndpoint)
    → parse uuid method path ≡ ok e
    → method_of e ≡ method
unfolding parse
parse-method_of uuid method path e h =
    ground
      (arith, fixed_endpoint-method_of method path e, parse_with_id-method_of uuid method path e)
