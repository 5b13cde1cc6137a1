-- ===== src/Account/Payload.antt =====
-- src/account/protocol.rs, `validate_account_value`: what a request body may not carry.
pub mod Clean
use kaleidoscope_sdk.Prelude.{
  leb, if◌then◌else◌, any, bytes_eq, Text, codes, is_ascii_alphanumeric, ◌+◌, Bool, true, not, ◌&&◌,
  List, [], ◌∷◌,
}
use kaleidoscope_sdk.JsonSpan.Value.{
  Value, null, bool, number, string, array, object, Items, nil, cons, Members, end, member,
}
use kaleidoscope_sdk.Account.Model.{looks_like_absolute_path}

-- `FORBIDDEN`
abbrev pub forbidden : List Text
forbidden =
    codes "compiledcontext"
    ∷ codes "context"
    ∷ codes "journal"
    ∷ codes "localpath"
    ∷ codes "memory"
    ∷ codes "memoryid"
    ∷ codes "modelprovidertoken"
    ∷ codes "ontology"
    ∷ codes "principal"
    ∷ codes "principalid"
    ∷ codes "profile"
    ∷ codes "profileid"
    ∷ codes "prompt"
    ∷ codes "query"
    ∷ codes "remember"
    ∷ codes "root"
    ∷ codes "search"
    ∷ codes "searchquery"
    ∷ codes "semanticdelta"
    ∷ codes "semanticentity"
    ∷ codes "semanticfact"
    ∷ codes "semanticfacts"
    ∷ codes "toolpayload"
    ∷ codes "vault"
    ∷ codes "vaultfile"
    ∷ codes "workspace"
    ∷ codes "workspaceid"
    ∷ []

-- The ASCII letters and digits of a key, in lower case. No byte of a character that is not ASCII
-- passes the filter, so bytes serve for characters.
unfoldable pub normalized : Text → Text
normalized [] = []
normalized (c ∷ cs) =
    let rest = normalized cs in
    if is_ascii_alphanumeric c
    then (if leb b'A' c && leb c b'Z' then c + 32 else c) ∷ rest
    else rest

unfoldable pub is_forbidden : Text → Bool
unfolding normalized
is_forbidden key = any (λ word. bytes_eq word (normalized key)) forbidden

-- `validate_account_value`, `true` for `Ok(())`; the only error is `UnsafeRequest`.
unfoldable mutual
  pub value_allowed : Value → Bool
  value_allowed (object m) = members_allowed m
  value_allowed (array xs) = items_allowed xs
  value_allowed (string t) = not (looks_like_absolute_path t)
  value_allowed null = true
  value_allowed (bool b) = true
  value_allowed (number n) = true

  pub items_allowed : Items → Bool
  items_allowed nil = true
  items_allowed (cons v xs) = value_allowed v && items_allowed xs

  pub members_allowed : Members → Bool
  members_allowed end = true
  members_allowed (member k v m) = not (is_forbidden k) && (value_allowed v && members_allowed m)
