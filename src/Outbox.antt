-- ===== src/Outbox.antt =====
-- `list_outbox_events` of packages/hangar-server/src/store.rs: a page of the events of a scope, after
-- a cursor.
pub mod Cuts
pub mod Pages
use hangar_ia.Prelude.{
  ℕ, suc, String, Bool, true, false, not, ◌&&◌, ◌||◌, Option, none, some, List, [], ◌∷◌, is_none,
  is_none_or, is_some_and, leb, ◌==◌, string_eq, if◌then◌else◌,
}
use hangar_ia.Platform.{Uuid, Platform}
use hangar_ia.Types.Events.{OutboxEvent}
use hangar_ia.Database.{Database}

-- A key that the cursor does not skip. The texts of two uuids have the order of their numbers.
abbrev pub is_past : Option Uuid → Uuid → Bool
is_past after key = is_none_or (λ cursor. not (leb key cursor)) after

-- `event.workspace_id.as_deref() == workspace_id`
abbrev pub is_workspace : Option String → Option String → Bool
is_workspace none none = true
is_workspace (some a) (some b) = a == b
is_workspace _ _ = false

-- The events that a reader of an organization, or of one of its workspaces, may list.
abbrev pub is_listed : String → Option String → OutboxEvent → Bool
is_listed organization_id workspace_id event =
    event.organization_id == organization_id
    && (is_none workspace_id || is_workspace event.workspace_id workspace_id)

-- The loop over the rows; `found` is the length of the result so far.
unfoldable pub collect_events :
    String → Option String → Option Uuid → ℕ → ℕ → List (Uuid × OutboxEvent) → List OutboxEvent
collect_events organization_id workspace_id after limit found [] = []
collect_events organization_id workspace_id after limit found ((key, event) ∷ rest) =
    if is_past after key && is_listed organization_id workspace_id event
    then (let more = collect_events organization_id workspace_id after limit (suc found) rest in
        if leb limit (suc found) then event ∷ [] else event ∷ more)
    else collect_events organization_id workspace_id after limit found rest

module _ (p : Platform) where
  unfoldable pub list_outbox_events :
      String → Option String → Option Uuid → ℕ → Database p → List OutboxEvent
  list_outbox_events organization_id workspace_id after limit db =
      collect_events organization_id workspace_id after limit 0 (p.uuids.rows db.outbox_events)
