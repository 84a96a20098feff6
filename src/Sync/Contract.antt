-- ===== src/Sync/Contract.antt =====
-- internal/service/sync_contract.go: which operations each object type supports.
use agent_os_backend.Prelude.{
  String, Option, none, some, List, [], ◌∷◌, ◌==◌, string_eq, if◌then◌else◌, concat, ℕ,
}
use agent_os_backend.Errors.{Result, ok, err, unsupported_sync_event}
use agent_os_backend.Table.{any}

abbrev pub sync_schema_version : ℕ
sync_schema_version = 1

-- a Go map by its entries
abbrev pub Families : Type 0
Families = List (String × List String)

unfoldable pub operations_of : String → Families → Option (List String)
operations_of object [] = none
operations_of object ((o, ops) ∷ rest) = if o == object then some ops else operations_of object rest

-- supportedSyncOperations, with the keys of each inner map
abbrev pub supported_sync_operations : Families
supported_sync_operations =
    ("message", "created" ∷ "updated" ∷ "deleted" ∷ "reaction_added" ∷ "reaction_removed" ∷ [])
    ∷ ("conversation", "created" ∷ "updated" ∷ "read" ∷ [])
    ∷ ("participant", "added" ∷ "updated" ∷ "removed" ∷ [])
    ∷ ("message_reaction", "added" ∷ "removed" ∷ [])
    ∷ ("conversation_read", "updated" ∷ [])
    ∷ ("knowledge", "created" ∷ "updated" ∷ "deleted" ∷ [])
    ∷ ("contact", "created" ∷ "updated" ∷ "deleted" ∷ [])
    ∷ ("skill", "enabled" ∷ "disabled" ∷ "updated" ∷ "installed" ∷ "uninstalled" ∷ [])
    ∷ ("agent", "updated" ∷ [])
    ∷ ("server", "added" ∷ "updated" ∷ "removed" ∷ [])
    ∷ (
      "plugin",
      "added" ∷ "updated" ∷ "removed" ∷ "installed" ∷ "uninstalled" ∷ "enabled" ∷ "disabled"
          ∷ "permission_granted" ∷ "permission_revoked" ∷ [],
    )
    ∷ ("profile", "updated" ∷ [])
    ∷ []

-- SyncSupportedObjectFamilies: what GetCapabilities tells the clients
abbrev pub sync_supported_object_families : Families
sync_supported_object_families =
    ("profile", "updated" ∷ [])
    ∷ ("conversation", "created" ∷ "updated" ∷ "read" ∷ [])
    ∷ ("participant", "added" ∷ "updated" ∷ "removed" ∷ [])
    ∷ ("message", "created" ∷ "updated" ∷ "deleted" ∷ "reaction_added" ∷ "reaction_removed" ∷ [])
    ∷ ("knowledge", "created" ∷ "updated" ∷ "deleted" ∷ [])
    ∷ ("contact", "created" ∷ "updated" ∷ "deleted" ∷ [])
    ∷ ("skill", "installed" ∷ "uninstalled" ∷ "enabled" ∷ "disabled" ∷ "updated" ∷ [])
    ∷ ("agent", "updated" ∷ [])
    ∷ ("server", "added" ∷ "updated" ∷ "removed" ∷ [])
    ∷ (
      "plugin",
      "installed" ∷ "uninstalled" ∷ "enabled" ∷ "disabled" ∷ "permission_granted"
          ∷ "permission_revoked" ∷ "added" ∷ "updated" ∷ "removed" ∷ [],
    )
    ∷ []

check_operation : String → Option (List String) → Result (Unit {0})
check_operation operation none = err unsupported_sync_event
check_operation operation (some ops) =
    if any (λ o. o == operation) ops then ok tt else err unsupported_sync_event

unfoldable pub validate_sync_event : String → String → Result (Unit {0})
unfolding check_operation operations_of any
validate_sync_event object operation =
    check_operation operation (operations_of object supported_sync_operations)

named : String → String → Result (Unit {0}) → Result String
named object operation (ok _) = ok (concat object (concat "." operation))
named object operation (err e) = err e

unfoldable pub build_sync_event_type : String → String → Result String
unfolding named validate_sync_event
build_sync_event_type object operation =
    named object operation (validate_sync_event object operation)
