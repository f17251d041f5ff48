-- ===== src/Value.antt =====
-- The values that flows carry: the JSON-like part of Python's `Any`. Whole numbers are signed and
-- unbounded; floats and other objects are left out.
use chain_weaver.Common.{ℕ, String, Bool, [], ◌∷◌}
use chain_weaver.Dict.{Dict}

-- `negsuc n` is -(n + 1).
pub data ℤ : Type 0 where
  pos : ℕ → ℤ
  negsuc : ℕ → ℤ

mutual
  pub data Fields : Type 0 where
    no_fields : Fields
    field : String → Value → Fields → Fields

  pub data Items : Type 0 where
    nil : Items
    cons : Value → Items → Items

  pub data Value : Type 0 where
    object : Fields → Value
    array : Items → Value
    text : String → Value
    bool : Bool → Value
    num : ℤ → Value
    null : Value

-- The context of a flow, and the inputs and outputs of a tool.
abbrev pub Context : Type 0
Context = Dict Value

-- A context as a value, for what walks into it.
unfoldable pub to_fields : Context → Fields
to_fields [] = no_fields
to_fields ((k, v) ∷ d) = field k v (to_fields d)
