-- ===== src/Json.antt =====
-- The values of Go's `map[string]any` as this program uses them, and `encoding/json` as a codec
-- between such maps and their text (internal/store/sqlite/store.go: `marshalJSON`,
-- `unmarshalJSONString`; internal/runtime/session/manager.go: `cloneState`).
use mathlib.Core.Path.{◌≡◌}
use mathlib.Core.Bool.{Bool}
use mathlib.Core.Option.{Option, some}
use Prim.Native.Nat.{ℕ}
use Prim.Native.String.{String}

mutual
  pub data Value : Type 0 where
    null : Value
    bool : Bool → Value
    -- a number by its literal
    number : String → Value
    text : String → Value
    array : Items → Value
    object : Fields → Value

  pub data Items : Type 0 where
    nil : Items
    cons : Value → Items → Items

  pub data Fields : Type 0 where
    end : Fields
    field : String → Value → Fields → Fields

-- `encoding/json`: a map may fail to encode, and a text to decode; `null` decodes to the nil map.
-- The laws are the documented behaviour: what was encoded from a map decodes to a map, and what
-- was decoded from a text encodes, to a text that decodes to the same map.
pub record Codec : Type 0 where
  pub marshal : Fields → Option String
  pub unmarshal : String → Option (Option Fields)
  -- the elements of the text of a list, of integrity issues
  pub unmarshal_issues : String → Option Items
  -- `parseStoredTime`
  pub parse_time : String → Option ℕ
  pub unmarshal-marshal :
      (o : Fields) (t : String) → marshal o ≡ some t → (d : Fields) × (unmarshal t ≡ some (some d))
  pub marshal-unmarshal :
      (t : String) (d : Fields)
      → unmarshal t ≡ some (some d)
      → (u : String) × (marshal d ≡ some u) × (unmarshal u ≡ some (some d))
