-- ===== src/Json.antt =====
-- JSON values and objects (`map[string]any`, `datatypes.JSONMap`). A Go map has no order: an object
-- keeps its members in the order of their insertion. Numbers are integers, and an instant that
-- the code formats into a member stays an instant.
use agent_os_backend.Prelude.{String, ℕ, Bool, ◌==◌, string_eq, if◌then◌else◌}
use agent_os_backend.Prelude.Int.{ℤ}

mutual
  pub data Json : Type 0 where
    null : Json
    boolean : Bool → Json
    number : ℤ → Json
    text : String → Json
    instant : ℕ → Json
    array : JsonItems → Json
    object : JsonMap → Json

  pub data JsonItems : Type 0 where
    nil : JsonItems
    cons : Json → JsonItems → JsonItems

  pub data JsonMap : Type 0 where
    empty : JsonMap
    member : String → Json → JsonMap → JsonMap

-- m[key] = value
unfoldable pub put : String → Json → JsonMap → JsonMap
put key value empty = member key value empty
put key value (member k v m) =
    let rest = put key value m in if k == key then member key value m else member k v rest
