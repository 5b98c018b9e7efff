-- ===== src/Security/Jwt/Claims.antt =====
-- JSON values, as `json.loads` gives them.
use sms_backend.Common.{Bool, true, false, Option, none, some, ◌||◌}
use sms_backend.Common.Int.{ℤ, pos}
use sms_backend.Security.Text.{Text, text_eq}

mutual
  pub data Json : Type 0 where
    null : Json
    boolean : Bool → Json
    int : ℤ → Json
    -- a number with a fraction or an exponent, by its text
    float : Text → Json
    text : Text → Json
    array : Items → Json
    object : Fields → Json

  pub data Items : Type 0 where
    nil : Items
    item : Json → Items → Items

  pub data Fields : Type 0 where
    end : Fields
    field : Text → Json → Fields → Fields

abbrev or_later : Option Json → Bool → Json → Option Json
or_later (some later) same value = some later
or_later none true value = some value
or_later none false value = none

-- `claims.get(key)`, where the last field of a key counts; `None` and JSON's null are not told apart
unfoldable pub get : Text → Fields → Option Json
get key end = none
get key (field name value rest) = or_later (get key rest) (text_eq name key) value

abbrev pub is_text : Text → Option Json → Bool
is_text t (some (text s)) = text_eq s t
is_text t _ = false

-- `t in items`
abbrev pub has_text : Text → Items → Bool
has_text t nil = false
has_text t (item j rest) = is_text t (some j) || has_text t rest

-- `isinstance(value, int)`: Python counts the two Booleans as integers
abbrev pub as_int : Option Json → Option ℤ
as_int (some (int n)) = some n
as_int (some (boolean true)) = some (pos 1)
as_int (some (boolean false)) = some (pos 0)
as_int _ = none
