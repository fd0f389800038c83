-- ===== src/Common/Json.antt =====
-- JSON values as `json.loads` returns them, and what the program asks of one.
use mathlib.Core.Bool.{Bool, true, false, not}
use mathlib.Core.Option.{none, some}
use mathlib.Core.List.{List, [], ◌∷◌}
use sms_relay.Common.Tests.{if◌then◌else◌}
use sms_relay.Common.Strings.{Text, is_empty}
use sms_relay.Common.Dict.{Dict, lookup}
use sms_relay.Common.Result.{key_error, type_error, Result, raise, require}

-- Of a number the program asks only whether it is 0, and for the text that `str` makes of it.
mutual
  pub data Json : Type 0 where
    null : Json
    bool : Bool → Json
    num : (is_zero : Bool) → (shown : Text) → Json
    str : Text → Json
    arr : Elems → Json
    obj : Props → Json

  pub data Elems : Type 0 where
    nil : Elems
    cons : Json → Elems → Elems

  pub data Props : Type 0 where
    end : Props
    prop : Text → Json → Props → Props

abbrev pub elems : Elems → List Json
elems nil = []
elems (cons v vs) = v ∷ elems vs

abbrev pub props : Props → Dict Json
props end = []
props (prop k v ps) = (k, v) ∷ props ps

-- `bool(v)`
abbrev pub truthy : Json → Bool
truthy null = false
truthy (bool b) = b
truthy (num is_zero _) = not is_zero
truthy (str s) = not (is_empty s)
truthy (arr nil) = false
truthy (arr (cons _ _)) = true
truthy (obj end) = false
truthy (obj (prop _ _ _)) = true

-- `a or b`
abbrev pub or_else : Json → Json → Json
or_else a b = if truthy a then a else b

-- `d.get(k)` on a dict, with None for a missing key.
abbrev pub get : Text → Props → Json
get k ps = elim (lookup k (props ps)) [ none ↦ null | some v ↦ v ]

-- `v[k]` for a text k: only a dict has such a subscript.
abbrev pub subscript : Json → Text → Result Json
subscript (obj ps) k = require (lookup k (props ps)) key_error
subscript _ k = raise type_error
