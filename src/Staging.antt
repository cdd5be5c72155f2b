-- ===== src/Staging.antt =====
-- runtime/pdx_artifact_engine/staging/__init__.py: payloads in files that expire.
use Prim.Native.String.{◌++◌ as append}
use text.Mathlib.Text.{starts_with}
use pdx_artifact_engine.Prelude.{
  ℕ, ◌+◌, String, List, Bool, true, false, not, ◌||◌, Option, none, some, Result, ok, raise, ◌>>◌,
  guard, if◌then◌else◌, ltb, ◌==◌, string_eq, length, Dict, lookup, insert, remove,
}
pub mod Files
mod Tests

abbrev pub Bytes : Type 0
Bytes = List ℕ

pub record StagingHandle : Type 0 where
  pub handle : String
  pub sha256 : String
  pub size_bytes : ℕ
  pub media_type : String
  pub expires_at : String

-- what the file `<handle>.json` holds
pub record StagedMeta : Type 0 where
  pub wire : StagingHandle
  pub open wire use *
  pub expires_unix : ℕ

-- The files under the root, by handle: the payloads, `.bin`, and their descriptions, `.json`.
pub record StagingStore : Type 0 where
  pub ttl_seconds : ℕ
  pub max_decoded_bytes : ℕ
  pub payloads : Dict Bytes
  pub metas : Dict StagedMeta

pub data StagingError : Type 0 where
  payload_size digest_mismatch : StagingError

-- `hashlib.sha256(..).hexdigest()`, and a time in seconds as RFC 3339 text
pub record Formats : Type 0 where
  pub sha256 : Bytes → String
  pub rfc3339 : ℕ → String

abbrev pub expected_differs : Option String → String → Bool
expected_differs none digest = false
expected_differs (some expected) digest = not (digest == expected)

module _ (f : Formats) where
  abbrev pub meta_of : Bytes → String → String → ℕ → StagedMeta
  meta_of payload media_type handle expires = record {
    wire = record {
      handle = handle;
      sha256 = f.sha256 payload;
      size_bytes = length payload;
      media_type = media_type;
      expires_at = f.rfc3339 expires;
    };
    expires_unix = expires;
  }

  -- `drawn` is `secrets.token_hex(16)`.
  unfoldable pub stage :
      StagingStore
      → (payload : Bytes) (media_type : String) (expected_sha256 : Option String) (now : ℕ)
        (drawn : String)
      → Result StagingError (StagingHandle × StagingStore)
  stage st payload media_type expected_sha256 now drawn =
      let handle = append "stg_" drawn in
      let meta = meta_of payload media_type handle (now + st.ttl_seconds) in
      do
        guard (not (ltb (length payload) 1 || ltb st.max_decoded_bytes (length payload)))
            payload_size
        guard (not (expected_differs expected_sha256 (f.sha256 payload))) digest_mismatch
        ok (
          meta.wire,
          record st {
            payloads = insert handle payload st.payloads;
            metas = insert handle meta st.metas;
          },
        )

-- `_load_meta`
unfoldable pub load_meta : StagingStore → String → Option StagedMeta
load_meta st handle = if not (starts_with handle "stg_") then none else lookup handle st.metas

unfoldable pub delete : StagingStore → String → StagingStore
delete st handle = record st {
  payloads = remove handle st.payloads;
  metas = remove handle st.metas;
}

-- what follows `_load_meta` in `read_bytes`
abbrev pub read_found :
    StagingStore → String → (now : ℕ) → Option StagedMeta → Option Bytes × StagingStore
read_found st handle now none = (none, st)
read_found st handle now (some meta) =
    if ltb meta.expires_unix now then (none, delete st handle) else (lookup handle st.payloads, st)

unfoldable pub read_bytes : StagingStore → String → (now : ℕ) → Option Bytes × StagingStore
unfolding load_meta delete
read_bytes st handle now = read_found st handle now (load_meta st handle)

-- what follows `_load_meta` in `get_handle`
abbrev pub handle_found :
    StagingStore → String → (now : ℕ) → Option StagedMeta → Option StagingHandle × StagingStore
handle_found st handle now none = (none, st)
handle_found st handle now (some meta) =
    if ltb meta.expires_unix now then (none, delete st handle) else (some meta.wire, st)

unfoldable pub get_handle : StagingStore → String → (now : ℕ) → Option StagingHandle × StagingStore
unfolding load_meta delete
get_handle st handle now = handle_found st handle now (load_meta st handle)
