-- ===== src/Prelude/Json.antt =====
-- JSON values, as `json.loads` and the JSON columns give them. A float is kept by its text and
-- whether it is zero: the code that is modelled never computes with one.
use Prim.Native.Nat.{ℕ, zero, suc}
use Prim.Native.String.{String}
use mathlib.Core.Bool.{Bool, true, false, not}
use mathlib.Core.Option.{Option, none, some}
use mathlib.Core.List.{List, [], ◌∷◌}
use dot_backend.Prelude.Text.{is_blank}
use dot_backend.Prelude.Tests.{str_eq, if◌then◌else◌}

-- `negsuc n` is -(n + 1).
pub data ℤ : Type 0 where
  pos : ℕ → ℤ
  negsuc : ℕ → ℤ

mutual
  pub data Json : Type 0 where
    null : Json
    bool : Bool → Json
    int : ℤ → Json
    float : String → Bool → Json
    text : String → Json
    array : Items → Json
    object : Fields → Json

  pub data Items : Type 0 where
    nil : Items
    cons : Json → Items → Items

  pub data Fields : Type 0 where
    end : Fields
    field : String → Json → Fields → Fields

-- `d.get(key)`; a missing key gives None.
unfoldable pub get : String → Fields → Json
get k end = null
get k (field j v fs) = if str_eq j k then v else get k fs

-- `d.get(key, default)`
unfoldable pub get_or : String → Json → Fields → Json
get_or k default end = default
get_or k default (field j v fs) = if str_eq j k then v else get_or k default fs

-- `d[key]`, where a missing key raises
unfoldable pub lookup : String → Fields → Option Json
lookup k end = none
lookup k (field j v fs) = if str_eq j k then some v else lookup k fs

-- `d.pop(key, None)`
unfoldable pub remove : String → Fields → Fields
remove k end = end
remove k (field j v fs) = let rest = remove k fs in if str_eq j k then rest else field j v rest

-- `d[key] = value`
unfoldable pub put : String → Json → Fields → Fields
put k v end = field k v end
put k v (field j w fs) = if str_eq j k then field k v fs else field j w (put k v fs)

-- The elements of an array, as a list.
unfoldable pub elements : Items → List Json
elements nil = []
elements (cons x xs) = x ∷ elements xs

-- `value if isinstance(value, dict) else {}`
abbrev pub fields_of : Json → Fields
fields_of (object fs) = fs
fields_of _ = end

-- `isinstance(value, str)`
abbrev pub as_text : Json → Option String
as_text (text s) = some s
as_text _ = none

-- `value is True`
abbrev pub is_true : Json → Bool
is_true (bool true) = true
is_true _ = false

-- `bool(value)`
abbrev pub truthy : Json → Bool
truthy null = false
truthy (bool b) = b
truthy (int (pos zero)) = false
truthy (int (pos (suc n))) = true
truthy (int (negsuc n)) = true
truthy (float s is_zero) = not is_zero
truthy (text s) = not (is_blank s)
truthy (array nil) = false
truthy (array (cons x xs)) = true
truthy (object end) = false
truthy (object (field k v fs)) = true

-- `a or b`
abbrev pub either : Json → Json → Json
either a b = if truthy a then a else b
