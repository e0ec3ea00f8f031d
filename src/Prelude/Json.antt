-- ===== src/Prelude/Json.antt =====
-- The values that are rendered by `json.dumps` before they are hashed.
use Prim.Native.Nat.{ℕ}
use Prim.Native.String.{String}
use mathlib.Core.Bool.{Bool}
use mathlib.Core.Option.{Option, none, some}
use mathlib.Core.List.{List, [], ◌∷◌}

mutual
  pub data Json : Type 0 where
    null : Json
    bool : Bool → Json
    num : ℕ → Json
    str : String → Json
    arr : Items → Json
    obj : Fields → Json

  pub data Items : Type 0 where
    nil : Items
    cons : Json → Items → Items

  pub data Fields : Type 0 where
    end : Fields
    field : String → Json → Fields → Fields

abbrev pub items : List Json → Items
items [] = nil
items (x ∷ xs) = cons x (items xs)

abbrev pub fields : List (String × Json) → Fields
fields [] = end
fields ((k, v) ∷ r) = field k v (fields r)

abbrev pub option_str : Option String → Json
option_str none = null
option_str (some s) = str s

abbrev pub strs : List String → List Json
strs [] = []
strs (s ∷ ss) = str s ∷ strs ss

-- A key that is present only if its value was given.
abbrev pub given {ℓ} : {A : Type ℓ} → String → (A → Json) → Option A → List (String × Json)
given k render none = []
given k render (some v) = (k, render v) ∷ []
