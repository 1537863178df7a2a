-- ===== src/Prelude/Json.antt =====
-- Python's JSON values: what `json.loads` returns, and what the wire dictionaries hold.
use Prim.Native.Nat.{ℕ, suc}
use Prim.Native.String.{String}
use mathlib.Core.Bool.{Bool, true, false, not, ◌||◌}
use mathlib.Core.List.{List, [], ◌∷◌}
use mathlib.Core.Option.{Option, none, some}
use rintel_core.Prelude.Tests.{if◌then◌else◌, ◌==◌, string_eq, nat_eq}

-- `negative n` is the integer -(n + 1), and `real s` a float by its literal.
mutual
  pub data Json : Type 0 where
    null : Json
    boolean : Bool → Json
    integer negative : ℕ → Json
    real text : String → Json
    array : Items → Json
    object : Fields → Json

  pub data Items : Type 0 where
    nil : Items
    cons : Json → Items → Items

  pub data Fields : Type 0 where
    end : Fields
    field : String → Json → Fields → Fields

unfoldable pub items : List Json → Items
items [] = nil
items (j ∷ js) = cons j (items js)

unfoldable pub texts : List String → Items
texts [] = nil
texts (s ∷ ss) = cons (text s) (texts ss)

unfoldable pub item_list : Items → List Json
item_list nil = []
item_list (cons j js) = j ∷ item_list js

unfoldable pub keys : Fields → List String
keys end = []
keys (field k v fs) = k ∷ keys fs

-- `value.get(key)`, without the default
unfoldable pub get_field : String → Fields → Option Json
get_field k end = none
get_field k (field j v fs) = if j == k then some v else get_field k fs

unfoldable pub has_key : String → Fields → Bool
has_key k end = false
has_key k (field j v fs) = j == k || has_key k fs

unfoldable pub field_count : Fields → ℕ
field_count end = 0
field_count (field k v fs) = suc (field_count fs)

-- a dictionary from a literal
unfoldable pub dict : List (String × Json) → Fields
dict [] = end
dict ((k, v) ∷ r) = field k v (dict r)

-- `x if x else None`
abbrev pub or_null {ℓ} : {A : Type ℓ} → (A → Json) → Option A → Json
or_null f none = null
or_null f (some a) = f a

-- `bool(value)`
abbrev pub is_truthy : Json → Bool
is_truthy null = false
is_truthy (boolean b) = b
is_truthy (integer n) = not (n == 0)
is_truthy (negative n) = true
is_truthy (real s) = not (s == "0.0" || s == "-0.0")
is_truthy (text s) = not (s == "")
is_truthy (array nil) = false
is_truthy (array (cons j js)) = true
is_truthy (object end) = false
is_truthy (object (field k v fs)) = true
