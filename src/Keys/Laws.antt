-- ===== src/Keys/Laws.antt =====
-- What an issued key opens, and what it leaves as it was.
use hangar_ia.Prelude.{
  String, ◌≡◌, ℕ, ap, ◌∙◌, false, Option, some, ok, ◌==◌, string_eq, ==_refl, arith, if◌then◌else◌,
}
use hangar_ia.Platform.{Platform, Call}
use hangar_ia.Types.Access.{Role, IssuedApiKey}
use hangar_ia.Types.Sharing.{SubjectKind}
use hangar_ia.Database.{Database}
use hangar_ia.Keys.{
  principal_of, hash_token, issue_api_key_for_subject, authenticate, new_key, key_record, store_key,
}

module _ (p : Platform) where
  -- The key that was asked for, with a token that opens it, beside keys and tables that stay.
  pub record IsIssued (organization_id : String) (workspace_id : Option String) (role : Role)
      (kind : SubjectKind) (db : Database p) (issued : IssuedApiKey) (db' : Database p)
      : Type 0 where
    pub organization : issued.organization_id ≡ organization_id
    pub workspace : issued.workspace_id ≡ workspace_id
    pub as_role : issued.role ≡ role
    pub as_kind : issued.subject_kind ≡ kind
    pub opens : authenticate p issued.token db' ≡ some (principal_of issued)
    pub others :
        (token : String)
        → (hash_token p issued.token == hash_token p token) ≡ false
        → authenticate p token db' ≡ authenticate p token db
    pub rest : record db' { api_keys = db.api_keys } ≡ db

  issued_lem :
      (call : Call) (o : String) (w : Option String) (r : Role) (k : SubjectKind) (db : Database p)
      (issued : IssuedApiKey) (db' : Database p)
      → issue_api_key_for_subject p call o w r k db ≡ ok (issued, db')
      → (issued ≡ new_key p call o w r k) × (db' ≡ store_key p (call.clock 0) issued db)
  unfolding issue_api_key_for_subject
  issued_lem call o w r k db issued db' h = ground arith

  -- What `authenticate` finds once a key is stored.
  authenticate-store_key :
      (now : ℕ) (issued : IssuedApiKey) (db : Database p) (token : String)
      → authenticate p token (store_key p now issued db) ≡ (
          if hash_token p issued.token == hash_token p token
          then some (principal_of issued)
          else authenticate p token db)
  unfolding authenticate
  authenticate-store_key now issued db token = ground (
    arith,
    p.texts.get-insert (hash_token p token) (hash_token p issued.token) (key_record p now issued)
        db.api_keys,
  )

  -- A key that is issued has the scope, the role and the kind of the request; its token is then
  -- authenticated as its principal, a token with another digest as before, and no other table
  -- changes.
  pub issue_api_key-IsIssued :
      (call : Call) (o : String) (w : Option String) (r : Role) (k : SubjectKind) (db : Database p)
      (issued : IssuedApiKey) (db' : Database p)
      → issue_api_key_for_subject p call o w r k db ≡ ok (issued, db')
      → IsIssued o w r k db issued db'
  unfolding new_key
  issue_api_key-IsIssued call o w r k db issued db' h =
      let (key, stored) = issued_lem call o w r k db issued db' h in
      let found = authenticate-store_key (call.clock 0) issued db in
      record {
        organization = ap (λ (i : IssuedApiKey). i.organization_id) key;
        workspace = ap (λ (i : IssuedApiKey). i.workspace_id) key;
        as_role = ap (λ (i : IssuedApiKey). i.role) key;
        as_kind = ap (λ (i : IssuedApiKey). i.subject_kind) key;
        opens =
            ap (authenticate p issued.token) stored
            ∙ (found issued.token ∙ rw (==_refl (hash_token p issued.token)));
        others = λ token other. ap (authenticate p token) stored ∙ (found token ∙ rw other);
        rest = rw stored;
      }
