-- ===== src/Keys.antt =====
-- API keys: `issue_api_key_for_subject`, `issue_api_key`, `hash_token` and `authenticate` of
-- packages/hangar-server/src/store.rs.
pub mod Laws
use Prim.Native.String.{◌++◌ as append}
use hangar_ia.Prelude.{
  ℕ, String, not, Option, none, some, Outcome, ok, ensure, ◌>>◌, is_blank, string_eq,
}
use hangar_ia.Platform.{Platform, Call}
use hangar_ia.Types.Access.{Role, Principal, IssuedApiKey, ApiKeyRecord}
use hangar_ia.Types.Sharing.{SubjectKind}
use hangar_ia.Database.{Database}

-- The tests of the scope that a key is issued for.
unfoldable pub check_key_scope : String → Option String → Outcome (Unit {0})
check_key_scope organization_id workspace_id = do
  ensure (not (is_blank organization_id)) "organization_id cannot be empty"
  elim workspace_id [
    | none ↦ ok tt
    | some workspace ↦ ensure (not (is_blank workspace)) "workspace_id cannot be empty"
  ]

-- The principal that a key stands for.
abbrev pub principal_of : IssuedApiKey → Principal
principal_of issued = record {
  id = issued.id;
  organization_id = issued.organization_id;
  workspace_id = issued.workspace_id;
  role = issued.role;
  subject_kind = issued.subject_kind;
}

module _ (p : Platform) where
  unfoldable pub hash_token : String → String
  hash_token token = p.digest token

  -- `format!("hk_{}{}", ...)` of two fresh uuids
  unfoldable pub new_token : Call → String
  new_token call = append "hk_" (append (p.uuid_simple (call.ids 1)) (p.uuid_simple (call.ids 2)))

  unfoldable pub new_key : Call → String → Option String → Role → SubjectKind → IssuedApiKey
  new_key call organization_id workspace_id role subject_kind = record {
    id = call.ids 0;
    token = new_token call;
    organization_id = organization_id;
    workspace_id = workspace_id;
    role = role;
    subject_kind = subject_kind;
  }

  abbrev pub key_record : ℕ → IssuedApiKey → ApiKeyRecord
  key_record now issued = record {
    principal = principal_of issued;
    token_hash = hash_token issued.token;
    created_at_unix_ms = now;
  }

  abbrev pub store_key : ℕ → IssuedApiKey → Database p → Database p
  store_key now issued db = record db {
    api_keys = p.texts.insert (hash_token issued.token) (key_record now issued) db.api_keys;
  }

  unfoldable pub issue_api_key_for_subject :
      Call
      → String
      → Option String
      → Role
      → SubjectKind
      → Database p
      → Outcome (IssuedApiKey × Database p)
  issue_api_key_for_subject call organization_id workspace_id role subject_kind db = do
    check_key_scope organization_id workspace_id
    let issued = new_key call organization_id workspace_id role subject_kind
    ok (issued, store_key (call.clock 0) issued db)

  unfoldable pub issue_api_key :
      Call → String → Option String → Role → Database p → Outcome (IssuedApiKey × Database p)
  issue_api_key call organization_id workspace_id role db =
      issue_api_key_for_subject call organization_id workspace_id role SubjectKind.agent db

  unfoldable pub authenticate : String → Database p → Option Principal
  authenticate token db = elim (p.texts.get (hash_token token) db.api_keys) [
    | none ↦ none
    | some stored ↦ some stored.principal
  ]
