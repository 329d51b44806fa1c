-- ===== src/Base/Json.antt =====
-- What encoding/json decodes into interface{}. The floating-point type of its numbers is a parameter.
use Prim.Native.String.{String}
use mathlib.Core.Bool.{Bool}
use mathlib.Core.Option.{Option, none, some}
use ocg.Base.Equality.{◌==◌, string_eq}
use ocg.Base.Tests.{if◌then◌else◌}

mutual
  pub data Json (F : Type 0) : Type 0 where
    null : Json F
    bool : Bool → Json F
    num : F → Json F
    str : String → Json F
    arr : Items F → Json F
    obj : Fields F → Json F

  pub data Items (F : Type 0) : Type 0 where
    nil : Items F
    cons : Json F → Items F → Items F

  pub data Fields (F : Type 0) : Type 0 where
    end : Fields F
    field : String → Json F → Fields F → Fields F

module _ {F : Type 0} where
  -- `m[key]`; a missing key gives the nil interface, which fails every type assertion.
  abbrev pub get : String → Fields F → Json F
  get key end = null
  get key (field k v fs) = if k == key then v else get key fs

  -- The type assertions `v.(string)`, `v.(bool)`, `v.(float64)` and `v.(map[string]interface{})`.
  abbrev pub as_string : Json F → Option String
  as_string (str s) = some s
  as_string null = none
  as_string (bool b) = none
  as_string (num x) = none
  as_string (arr xs) = none
  as_string (obj fs) = none

  abbrev pub as_bool : Json F → Option Bool
  as_bool (bool b) = some b
  as_bool (str s) = none
  as_bool null = none
  as_bool (num x) = none
  as_bool (arr xs) = none
  as_bool (obj fs) = none

  abbrev pub as_num : Json F → Option F
  as_num (num x) = some x
  as_num (str s) = none
  as_num null = none
  as_num (bool b) = none
  as_num (arr xs) = none
  as_num (obj fs) = none

  abbrev pub as_map : Json F → Option (Fields F)
  as_map (obj fs) = some fs
  as_map (num x) = none
  as_map (str s) = none
  as_map null = none
  as_map (bool b) = none
  as_map (arr xs) = none

-- `if v, ok := …; ok { field = v }`: the value if there is one, else what the field held.
abbrev pub or_keep {ℓ} : {A : Type ℓ} → A → Option A → A
or_keep old none = old
or_keep old (some v) = v
