-- ===== src/Working/Sessions.antt =====
-- The map of sessions: `HashMap::get`, `insert` and `retain`.
use hangar_ia.Prelude.{Bool, Option, List, [], ◌∷◌, ◌==◌, nat_eq, if◌then◌else◌}
use hangar_ia.Platform.{Uuid, find_row}
use hangar_ia.Types.Working.{WorkingSession}

abbrev pub Sessions : Type 0
Sessions = List (Uuid × WorkingSession)

abbrev pub find_session : Uuid → Sessions → Option WorkingSession
find_session id sessions = find_row id sessions

abbrev pub insert_session : Uuid → WorkingSession → Sessions → Sessions
insert_session id session [] = (id, session) ∷ []
insert_session id session ((key, other) ∷ rest) =
    if key == id then (id, session) ∷ rest else (key, other) ∷ insert_session id session rest

abbrev pub retain_sessions : (WorkingSession → Bool) → Sessions → Sessions
retain_sessions keep [] = []
retain_sessions keep ((key, session) ∷ rest) =
    let kept = retain_sessions keep rest in if keep session then (key, session) ∷ kept else kept
