-- ===== src/Scope.antt =====
-- Roles, scopes and catalog names: `Role::allows`, `ensure_scope`, `validate_scope` and
-- `validate_catalog_name` of packages/hangar-server/src/store.rs.
pub mod Laws
use Prim.Native.Char.{code}
use hangar_ia.Prelude.{
  ℕ, String, Bool, true, false, not, ◌&&◌, ◌||◌, Outcome, ok, ensure, ◌>>=◌, ◌>>◌, leb, len,
  is_blank, ◌==◌, nat_eq, string_eq,
}
use hangar_ia.Types.Access.{Role}

unfoldable pub allows : Role → Role → Bool
allows Role.owner required = true
allows Role.writer Role.owner = false
allows Role.writer required = true
allows Role.reader Role.reader = true
allows Role.reader required = false

-- `x.organization_id == organization_id && x.workspace_id == workspace_id`
abbrev pub in_scope : String → String → String → String → Bool
in_scope x_organization x_workspace organization_id workspace_id =
    x_organization == organization_id && x_workspace == workspace_id

unfoldable pub ensure_scope : String → String → Outcome (Unit {0})
ensure_scope organization_id workspace_id = do
  ensure (not (is_blank organization_id)) "organization_id cannot be empty"
  ensure (not (is_blank workspace_id)) "workspace_id cannot be empty"
  ok tt

unfoldable pub validate_scope : String → String → Outcome (Unit {0})
validate_scope organization_id workspace_id = do
  ensure (not (is_blank organization_id) && leb (len organization_id) 256)
      "organization_id must be between 1 and 256 characters"
  ensure (not (is_blank workspace_id) && leb (len workspace_id) 256)
      "workspace_id must be between 1 and 256 characters"
  ok tt

-- `is_ascii_alphanumeric`, or one of `-`, `_`, `.` and `/`
abbrev pub is_catalog_character : ℕ → Bool
is_catalog_character c =
    (leb b'0' c && leb c b'9')
    || ((leb b'A' c && leb c b'Z')
        || ((leb b'a' c && leb c b'z') || (c == b'-' || (c == b'_' || (c == b'.' || c == b'/')))))

abbrev pub all_catalog_characters : String → Bool
all_catalog_characters String.[] = true
all_catalog_characters (String.◌∷◌ c s) = is_catalog_character (code c) && all_catalog_characters s

-- The message is the one that the caller's label gives.
unfoldable pub validate_catalog_name : String → String → Outcome (Unit {0})
validate_catalog_name value message = do
  ensure (not (is_blank value) && (leb (len value) 128 && all_catalog_characters value)) message
  ok tt
