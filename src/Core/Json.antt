-- ===== src/Core/Json.antt =====
-- JSON values (`JsonValue`, `JsonMapping`). A float stands as its shortest decimal text, which
-- tells two floats apart.
use universal_agent.Prelude.{String, Bool, true, false}
use universal_agent.Prelude.Int.{ℤ}

mutual
  pub data JsonValue : Type 0 where
    null : JsonValue
    bool : Bool → JsonValue
    int : ℤ → JsonValue
    float : String → JsonValue
    text : String → JsonValue
    list : JsonItems → JsonValue
    object : JsonMapping → JsonValue

  pub data JsonItems : Type 0 where
    nil : JsonItems
    cons : JsonValue → JsonItems → JsonItems

  pub data JsonMapping : Type 0 where
    end : JsonMapping
    field : String → JsonValue → JsonMapping → JsonMapping

-- Truthiness of a mapping.
abbrev pub is_empty_mapping : JsonMapping → Bool
is_empty_mapping end = true
is_empty_mapping (field k v m) = false
