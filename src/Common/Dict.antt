-- ===== src/Common/Dict.antt =====
-- A Python dict keyed by texts, in insertion order.
use mathlib.Core.Path.{◌≡◌, refl}
use mathlib.Core.Option.{Option, none, some}
use mathlib.Core.List.{List, [], ◌∷◌}
use native.Mathlib.Omega.{arith}
use sms_relay.Common.Tests.{if◌then◌else◌}
use sms_relay.Common.Strings.{Text, str_eq, str_eq_iff}

abbrev pub Dict {ℓ} : Type ℓ → Type ℓ
Dict V = List (Text × V)

module _ {ℓ} {V : Type ℓ} where
  abbrev pub lookup : Text → Dict V → Option V
  lookup k [] = none
  lookup k ((j, v) ∷ d) = if str_eq j k then some v else lookup k d

  -- `d[k] = v`
  abbrev pub insert : Text → V → Dict V → Dict V
  insert k v [] = (k, v) ∷ []
  insert k v ((j, w) ∷ d) = if str_eq j k then (j, v) ∷ d else (j, w) ∷ insert k v d

  -- No key twice.
  abbrev pub IsDict : Dict V → Type ℓ
  IsDict [] = Unit
  IsDict ((k, v) ∷ d) = (lookup k d ≡ none) × IsDict d

  pub lookup-insert :
      (k j : Text) (v : V) (d : Dict V)
      → lookup j (insert k v d) ≡ (if str_eq k j then some v else lookup j d)
  lookup-insert k j v [] = refl
  lookup-insert k j v ((i, w) ∷ d) =
      ground (arith, str_eq_iff k j, str_eq_iff i k, str_eq_iff i j, lookup-insert k j v d)

  pub insert-IsDict : (k : Text) (v : V) (d : Dict V) → IsDict d → IsDict (insert k v d)
  insert-IsDict k v [] h = (refl, tt)
  insert-IsDict k v ((j, w) ∷ d) h =
      ground (arith, insert-IsDict k v d h.1, lookup-insert k j v d, str_eq_iff k j, str_eq_iff j k)
