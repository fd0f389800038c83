-- ===== src/Config/ApiKeys.antt =====
-- The map of API keys (app/sms_relay/config.py, api_keys).
use sms_relay.Common.{
  ◌≡◌, refl, ◌∙◌, inl, inr, ◌&&◌, Option, none, some, [], ◌∷◌, arith, if◌then◌else◌, Bool-cases,
  Option-cases, Text, str_eq,
}
use sms_relay.Common.Dict.{Dict, lookup, insert, IsDict, lookup-insert, insert-IsDict}
use sms_relay.Common.Json.{Json, obj, Props, props, truthy}
use sms_relay.Config.{to_str, add_key, api_keys_of}
use sms_relay.External.{External}

module _ (x : External) where
  -- The service that the last entry with a key names, if there is one.
  abbrev pub owner : Text → Dict Json → Option Text
  owner key [] = none
  owner key ((name, k) ∷ configured) = elim (owner key configured) [
    | some service ↦ some service
    | none ↦ if truthy k && str_eq (to_str x k) key then some name else none
  ]

  add_key-IsDict :
      (configured : Dict Json) (keys : Dict Text) → IsDict keys → IsDict (add_key x configured keys)
  unfolding add_key
  add_key-IsDict [] keys h = h
  add_key-IsDict ((name, k) ∷ configured) keys h = elim (Bool-cases (truthy k)) [
    | inl set ↦ rw set (add_key-IsDict configured _ (insert-IsDict (to_str x k) name keys h))
    | inr unset ↦ rw unset (add_key-IsDict configured keys h)
  ]

  lookup-add_key :
      (key : Text) (configured : Dict Json) (keys : Dict Text)
      → lookup key (add_key x configured keys)
        ≡ (elim (owner key configured) [ some service ↦ some service | none ↦ lookup key keys ])
  unfolding add_key
  lookup-add_key key [] keys = refl
  lookup-add_key key ((name, k) ∷ configured) keys =
      let keys' = if truthy k then insert (to_str x k) name keys else keys in
      lookup-add_key key configured keys'
      ∙ ground (
        arith,
        Option-cases (owner key configured),
        lookup-insert (to_str x k) key name keys,
        Bool-cases (truthy k),
      )

  -- The map of keys holds no key twice, and a key stands for the service that the last entry with
  -- this key names, among those whose key is not empty.
  pub api_keys_of-lookup :
      (configured : Props)
      → IsDict (api_keys_of x (obj configured))
        × ((key : Text)
            → lookup key (api_keys_of x (obj configured)) ≡ owner key (props configured))
  unfolding api_keys_of
  api_keys_of-lookup configured = (
    add_key-IsDict (props configured) [] tt,
    λ key.
        lookup-add_key key (props configured) []
        ∙ ground (arith, Option-cases (owner key (props configured))),
  )
