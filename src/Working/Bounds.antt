-- ===== src/Working/Bounds.antt =====
-- The capacity of the working memory: no sequence of operations exceeds it, and the sums of lengths
-- never wrap.
use hangar_ia.Prelude.{
  ap, ℕ, ◌+◌, ◌≤◌, ◌<◌, ◌≡◌, refl, true, List, [], ◌∷◌, ◌++◌, length, sum_by, All, All-append,
  length-append, sum_by-append, ok, arith, String, len, nat_eq, add_usize, sub_usize, ensure,
  >>-eq-ok, ensure-ok, leb→le, ltb→lt,
}
use hangar_ia.Platform.{Uuid, Platform, Call}
use hangar_ia.Types.Working.{WorkingSession, WorkingMemoryEntry, NewWorkingMemoryEntry}
use hangar_ia.Working.Session.{
  entry_bytes, summary_bytes, session_content_bytes, ensure_session_owner, append_to_session,
  summarise_session, is_owner,
}

-- The bytes of the entries and the summary, as a plain sum.
abbrev pub content_size : WorkingSession → ℕ
content_size s =
    sum_by (λ (e : WorkingMemoryEntry). len e.content) s.entries + summary_bytes s.summary

pub record IsBounded (s : WorkingSession) : Type 0 where
  pub entries : length s.entries ≤ 64
  pub entry_sizes : All (λ (e : WorkingMemoryEntry). len e.content ≤ 8192) s.entries
  pub summary_size : summary_bytes s.summary ≤ 8192
  pub size : content_size s ≤ 65536
  pub lifetime : s.expires_at_unix_ms ≤ s.created_at_unix_ms + 86400000

entry_bytes-exact :
    (es : List WorkingMemoryEntry)
    → sum_by (λ (e : WorkingMemoryEntry). len e.content) es ≤ 65536
    → entry_bytes es ≡ sum_by (λ (e : WorkingMemoryEntry). len e.content) es
entry_bytes-exact [] h = refl
entry_bytes-exact (e ∷ es) h = omega (arith, entry_bytes-exact es (omega arith))

-- In `usize` the size of a session within its bounds is the plain sum.
pub session_content_bytes-exact :
    (s : WorkingSession) → IsBounded s → session_content_bytes s ≡ content_size s
unfolding session_content_bytes
session_content_bytes-exact s b =
    omega (arith, entry_bytes-exact s.entries (omega (arith, b.size)), b.size)

-- An appended entry comes last and everything else stays, within the bounds.
pub record Appended (s : WorkingSession) (e : WorkingMemoryEntry) (s' : WorkingSession)
    : Type 0 where
  pub entries : s'.entries ≡ s.entries ++ e ∷ []
  pub summary : s'.summary ≡ s.summary
  pub lifetime :
      (s'.created_at_unix_ms ≡ s.created_at_unix_ms)
      × (s'.expires_at_unix_ms ≡ s.expires_at_unix_ms)
  pub owner :
      (s'.organization_id ≡ s.organization_id)
      × (s'.workspace_id ≡ s.workspace_id)
      × (s'.created_by ≡ s.created_by)

module _ (p : Platform) (call : Call) (o w : String) (who : Uuid) where
  append_to_session-Appended :
      (new : NewWorkingMemoryEntry) (s : WorkingSession) (e : WorkingMemoryEntry)
      (s' : WorkingSession)
      → append_to_session p call o w who new s ≡ ok (e, s')
      → (is_owner s o w who ≡ true)
        × (e.content ≡ new.content)
        × (length s.entries < 64)
        × (add_usize (session_content_bytes s) (len new.content) ≤ 65536)
        × Appended s e s'
  unfolding append_to_session ensure_session_owner
  append_to_session-Appended new s e s' h =
      let a =
        >>-eq-ok (ensure (is_owner s o w who) "working session not found in this scope") _ h in
      let b = >>-eq-ok _ _ a.1 in
      let c = >>-eq-ok _ _ b.1 in
      (
        ensure-ok _ _ a.0,
        ground arith,
        ltb→lt _ _ (ensure-ok _ _ b.0),
        leb→le _ _ (ensure-ok _ _ c.0),
        record {
          entries = ground arith;
          summary = ground arith;
          lifetime = ground arith;
          owner = ground arith;
        },
      )

  pub append_to_session-IsBounded :
      (new : NewWorkingMemoryEntry) (s : WorkingSession) (e : WorkingMemoryEntry)
      (s' : WorkingSession)
      → len new.content ≤ 8192
      → IsBounded s
      → append_to_session p call o w who new s ≡ ok (e, s')
      → IsBounded s'
  append_to_session-IsBounded new s e s' small b h =
      let a = append_to_session-Appended new s e s' h in
      let exact = session_content_bytes-exact s b in
      let f = λ (x : WorkingMemoryEntry). len x.content in
      record {
        entries = rw a.4.entries (omega (arith, length-append s.entries (e ∷ []), a.2));
        entry_sizes = rw a.4.entries (
            All-append (λ (x : WorkingMemoryEntry). len x.content ≤ 8192) s.entries (e ∷ [])
              b.entry_sizes (rw a.1 small, tt));
        summary_size = rw a.4.summary b.summary_size;
        size =
            rw (a.4.entries, a.4.summary)
              (omega (arith, sum_by-append f s.entries (e ∷ []), ap len a.1, a.3, exact, b.size));
        lifetime = omega (arith, a.4.lifetime.0, a.4.lifetime.1, b.lifetime);
      }

  summarise_session-parts :
      (content : String) (s s' : WorkingSession)
      → summarise_session p call o w who content s ≡ ok s'
      → (is_owner s o w who ≡ true)
        × (add_usize (sub_usize (session_content_bytes s) (summary_bytes s.summary)) (len content)
            ≤ 65536)
        × (s'.entries ≡ s.entries)
        × (summary_bytes s'.summary ≡ len content)
        × (s'.created_at_unix_ms ≡ s.created_at_unix_ms)
        × (s'.expires_at_unix_ms ≡ s.expires_at_unix_ms)
  unfolding summarise_session ensure_session_owner
  summarise_session-parts content s s' h =
      let a =
        >>-eq-ok (ensure (is_owner s o w who) "working session not found in this scope") _ h in
      let b = >>-eq-ok _ _ a.1 in
      (
        ensure-ok _ _ a.0,
        leb→le _ _ (ensure-ok _ _ b.0),
        ground arith,
        ground arith,
        ground arith,
        ground arith,
      )

  pub summarise_session-IsBounded :
      (content : String) (s s' : WorkingSession)
      → len content ≤ 8192
      → IsBounded s
      → summarise_session p call o w who content s ≡ ok s'
      → IsBounded s'
  summarise_session-IsBounded content s s' small b h =
      let a = summarise_session-parts content s s' h in
      let exact = session_content_bytes-exact s b in
      record {
        entries = rw a.2 b.entries;
        entry_sizes = rw a.2 b.entry_sizes;
        summary_size = omega (arith, a.3, small);
        size = rw a.2 (omega (arith, a.3, a.1, exact, b.size, small));
        lifetime = omega (arith, a.4, a.5, b.lifetime);
      }
