-- ===== src/Records/Statuses.antt =====
-- The statuses of a record, one for each provider, as internal/controller/dns/record_controller.go
-- reads and writes them.
use Prim.Native.String.{◌++◌ as append}
use kube_dns_manager.Prelude.{
  ℕ, String, Bool, false, not, Option, none, some, List, [], ◌∷◌, ◌++◌, ◌==◌, length, any, keep,
  is_some, nat_eq, trim_suffix, if◌then◌else◌,
}
use kube_dns_manager.Api.Meta.{NamespacedName, equal}
use kube_dns_manager.Api.Record.{RecordStatus, RecordProviderStatus, find_provider_status}

abbrev pub not_ready : RecordProviderStatus → RecordProviderStatus
not_ready s = record s { message = "provider not ready" }

abbrev pub fresh : NamespacedName → RecordProviderStatus
fresh name = record { named = name; record_id = ""; message = ""; data_ = ""; checked = false }

-- The status of a provider, or a new one.
unfoldable pub current : NamespacedName → List RecordProviderStatus → RecordProviderStatus
current name ss = elim (find_provider_status ss name) [ some s ↦ s | none ↦ fresh name ]

-- A new status is appended to the list.
unfoldable pub enlist : NamespacedName → List RecordProviderStatus → List RecordProviderStatus
enlist name ss = elim (find_provider_status ss name) [ some s ↦ ss | none ↦ ss ++ fresh name ∷ [] ]

-- A write through the pointer that FindProviderStatus returns: it changes the first status of that
-- name.
unfoldable pub write :
    NamespacedName → RecordProviderStatus → List RecordProviderStatus → List RecordProviderStatus
write name new [] = []
write name new (s ∷ ss) =
    let rest = write name new ss in if equal s.named name then new ∷ ss else s ∷ rest

-- The removal of the nil entries, made only where they were counted.
unfoldable pub compact : ℕ → List (Option RecordProviderStatus) → List (Option RecordProviderStatus)
compact count slots = if nat_eq count (length slots) then slots else keep is_some slots

-- The statuses behind the pointers; `none` where a nil pointer is among them.
unfoldable pub dereference : List (Option RecordProviderStatus) → Option (List RecordProviderStatus)
dereference [] = some []
dereference (none ∷ slots) = none
dereference (some s ∷ slots) = elim (dereference slots) [ none ↦ none | some ss ↦ some (s ∷ ss) ]

-- No status has a message.
abbrev pub all_ready : List RecordProviderStatus → Bool
all_ready ss = not (any (λ s. not (s.message == "")) ss)

-- The messages, each with a line end behind it.
unfoldable pub messages : List RecordProviderStatus → String
messages [] = ""
messages (s ∷ ss) =
    let rest = messages ss in if s.message == "" then rest else append s.message (append "\n" rest)

unfoldable pub summarise : RecordStatus → List RecordProviderStatus → RecordStatus
unfolding messages
summarise status ss = record status {
  all_ready = all_ready ss;
  message = trim_suffix (messages ss) "\n";
  providers = ss;
}
