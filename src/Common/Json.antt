-- ===== src/Common/Json.antt =====
-- `any` values and `map[string]any`, as JSON decoding makes them.
use Prim.Native.Nat.{ℕ}
use Prim.Native.String.{String}
use mathlib.Core.Path.{◌≡◌, refl}
use mathlib.Core.Bool.{Bool}
use mathlib.Core.Option.{Option, none, some}
use native.Mathlib.Omega.{arith}
use agnet.Common.Tests.{if◌then◌else◌}
use agnet.Common.Text.{◌=s◌, eq_iff, eq_refl}

mutual
  -- A map in the order of first insertion; `end` is also the nil map.
  pub data Fields : Type 0 where
    end : Fields
    field : String → Value → Fields → Fields

  -- A slice.
  pub data Items : Type 0 where
    cons : Value → Items → Items
    nil : Items

  pub data Value : Type 0 where
    obj : Fields → Value
    arr : Items → Value
    text : String → Value
    num : ℕ → Value
    flag : Bool → Value
    null : Value

-- `m[k]`, with the presence that `v, ok := m[k]` reports.
unfoldable pub get : Fields → String → Option Value
get end k = none
get (field j v m) k = if j =s k then some v else get m k

-- `m[k] = v`
unfoldable pub put : Fields → String → Value → Fields
put end k v = field k v end
put (field j w m) k v = if j =s k then field j v m else field j w (put m k v)

-- `s, ok := v.(string)`
abbrev pub as_text : Option Value → Option String
as_text (some (text s)) = some s
as_text _ = none

-- `s, _ := v.(string)`: the zero value where the assertion fails
abbrev pub text_or_empty : Option Value → String
text_or_empty (some (text s)) = s
text_or_empty _ = ""

-- A write is seen at its key, and nowhere else.
pub get-put :
    (m : Fields) (k j : String) (v : Value)
    → get (put m k v) j ≡ (if k =s j then some v else get m j)
unfolding get put
get-put end k j v = refl
get-put (field i w m) k j v = ground (arith, eq_iff k j, eq_iff i k, eq_iff i j, get-put m k j v)

pub get-put_self : (m : Fields) (k : String) (v : Value) → get (put m k v) k ≡ some v
get-put_self m k v = rw (get-put m k k v, eq_refl k)
