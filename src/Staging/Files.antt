-- ===== src/Staging/Files.antt =====
-- A staged payload until it expires, and after.
use Prim.Native.String.{◌++◌ as append}
use text.Mathlib.TextEquality.{starts_with_iff}
use text.Mathlib.TextLemmas.{prefix-append}
use pdx_artifact_engine.Prelude.{
  ℕ, ◌+◌, ◌≤◌, String, not, ◌||◌, Option, none, some, ok, guard_passed, if◌then◌else◌, ltb,
  string_eq, length, insert, lookup-insert_self, ◌≡◌, refl, arith,
}
use pdx_artifact_engine.Staging.{
  Bytes, StagingHandle, StagingStore, Formats, meta_of, expected_differs, stage, load_meta, delete,
  read_bytes, get_handle,
}

-- What a call of `stage` that succeeded has written.
pub record Staged (f : Formats) (st : StagingStore) (payload : Bytes) (media_type : String)
    (now : ℕ) (drawn : String) (h : StagingHandle) (st' : StagingStore) : Type 0 where
  pub described :
      h ≡ (meta_of f payload media_type (append "stg_" drawn) (now + st.ttl_seconds)).wire
  pub written : st' ≡ record st {
    payloads = insert (append "stg_" drawn) payload st.payloads;
    metas =
        insert
          (append "stg_" drawn)
          (meta_of f payload media_type (append "stg_" drawn) (now + st.ttl_seconds))
          st.metas;
  }
  pub not_empty : 1 ≤ length payload
  pub fits : length payload ≤ st.max_decoded_bytes

module _ (f : Formats) where
  pub stage-Staged :
      (st : StagingStore) (payload : Bytes) (media_type : String) (expected : Option String)
      (now : ℕ) (drawn : String) {h : StagingHandle} {st' : StagingStore}
      → stage f st payload media_type expected now drawn ≡ ok (h, st')
      → Staged f st payload media_type now drawn h st'
  unfolding stage
  stage-Staged st payload media_type expected now drawn h =
      let (g1, h1) =
        guard_passed (not (ltb (length payload) 1 || ltb st.max_decoded_bytes (length payload))) _ _
          h in
      let (g2, h2) = guard_passed (not (expected_differs expected (f.sha256 payload))) _ _ h1 in
      record { described = cc h2; written = cc h2; not_empty = ground arith; fits = ground arith }

  -- the store after `stage`
  abbrev with_staged : StagingStore → Bytes → String → ℕ → String → StagingStore
  with_staged st payload media_type now handle = record st {
    payloads = insert handle payload st.payloads;
    metas = insert handle (meta_of f payload media_type handle (now + st.ttl_seconds)) st.metas;
  }

  load_meta-staged :
      (st : StagingStore) (payload : Bytes) (media_type : String) (now : ℕ) (drawn : String)
      → load_meta
          (with_staged st payload media_type now (append "stg_" drawn))
          (append "stg_" drawn)
        ≡ some (meta_of f payload media_type (append "stg_" drawn) (now + st.ttl_seconds))
  unfolding load_meta
  load_meta-staged st payload media_type now drawn =
      rw
        (
          (starts_with_iff (append "stg_" drawn) "stg_").1 (prefix-append "stg_" drawn),
          lookup-insert_self (append "stg_" drawn)
              (meta_of f payload media_type (append "stg_" drawn) (now + st.ttl_seconds)) st.metas,
        )
        refl

  -- A staged payload is read back byte for byte as long as it has not expired, whatever else is
  -- staged, and with the description that `stage` returned; after that it is gone, and reading it
  -- deletes its files.
  pub read-stage :
      (st : StagingStore) (payload : Bytes) (media_type : String) (expected : Option String)
      (now later : ℕ) (drawn : String) {h : StagingHandle} {st' : StagingStore}
      → stage f st payload media_type expected now drawn ≡ ok (h, st')
      → (read_bytes st' h.handle later ≡ (
          if ltb (now + st.ttl_seconds) later
          then (none, delete st' h.handle)
          else (some payload, st')))
        × (get_handle st' h.handle later ≡ (
            if ltb (now + st.ttl_seconds) later
            then (none, delete st' h.handle)
            else (some h, st')))
  unfolding read_bytes get_handle
  read-stage st payload media_type expected now later drawn h =
      let s = stage-Staged st payload media_type expected now drawn h in
      rw
        (
          s.written,
          s.described,
          load_meta-staged st payload media_type now drawn,
          lookup-insert_self (append "stg_" drawn) payload st.payloads,
        )
        (refl, refl)
