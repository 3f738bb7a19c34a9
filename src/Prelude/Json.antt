-- ===== src/Prelude/Json.antt =====
-- JSON values as the code reads and builds them through `QJsonObject`. Numbers are integers, which
-- is all that the code stores. An absent key reads as `undefined`.
use Prim.Native.Nat.{ℕ}
use Prim.Native.Char.{code}
use Prim.Native.String.{String}
use text.Mathlib.Text.{◌==◌}
use mathlib.Core.Bool.{Bool, true, false, ◌&&◌}
use mathlib.Core.List.{List, [], ◌∷◌}
use xychat_project.Prelude.Tests.{if◌then◌else◌}
use xychat_project.Prelude.Int.{ℤ, pos, negsuc, leb_int}

-- The code units of an ASCII literal.
abbrev pub codes : String → List ℕ
codes String.[] = []
codes (String.◌∷◌ c s) = code c ∷ codes s

mutual
  pub data Json : Type 0 where
    undefined : Json
    null : Json
    bool : Bool → Json
    number : ℤ → Json
    str : List ℕ → Json
    array : Items → Json
    object : Fields → Json

  pub data Items : Type 0 where
    nil : Items
    cons : Json → Items → Items

  pub data Fields : Type 0 where
    end : Fields
    field : String → Json → Fields → Fields

-- `obj.value(key)`.
abbrev pub value : Fields → String → Json
value end k = undefined
value (field j v o) k = if j == k then v else value o k

-- `obj[key] = v`.
abbrev pub put : String → Json → Fields → Fields
put k v end = field k v end
put k v (field j w o) = if j == k then field k v o else field j w (put k v o)

-- `contains(key)`.
abbrev pub has_key : Fields → String → Bool
has_key end k = false
has_key (field j v o) k = if j == k then true else has_key o k

-- `toString()`: the empty text for another type.
abbrev pub to_text : Json → List ℕ
to_text (str t) = t
to_text _ = []

-- `toInt(d)`: an integer in the range of `int`, and `d` otherwise.
abbrev pub is_int : ℤ → Bool
is_int n = leb_int (negsuc 2147483647) n && leb_int n (pos 2147483647)

abbrev pub to_int : Json → ℤ → ℤ
to_int (number n) d = if is_int n then n else d
to_int _ d = d

-- `toVariant().toLongLong()`: a text is read as a number by `QVariant`, which is `parse`.
abbrev pub to_long_long : (List ℕ → ℤ) → Json → ℤ
to_long_long parse (number n) = n
to_long_long parse (str t) = parse t
to_long_long parse (bool true) = pos 1
to_long_long parse _ = pos 0
