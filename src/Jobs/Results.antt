-- ===== src/Jobs/Results.antt =====
-- runtime/pdx_artifact_engine/jobs/result_contract.py: what a job's result items must be.
use Prim.Native.Char.{code}
use Prim.Native.String.{String}
use pdx_artifact_engine.Prelude.{
  ℕ, List, [], ◌∷◌, ◌++◌, Bool, false, not, ◌&&◌, ◌||◌, Option, none, some, Result, ok, raise,
  ◌>>=◌, ◌>>◌, guard, if◌then◌else◌, leb, ◌==◌, nat_eq, string_eq, option_eq, list_eq, length, all,
  elem, is_empty, Dict, Value, lookup_text,
}

pub data ItemError : Type 0 where
  not_object schema_mismatch job_mismatch unsupported_kind artifact_not_object unbound_uri :
      ItemError
  too_many duplicate_kind : ItemError

-- An item: what its keys hold where that is text, and `artifact` where it is an object.
pub record ResultItem : Type 0 where
  pub schema_version : Option String
  pub job_id : Option String
  pub kind : Option String
  pub artifact : Option (Dict Value)

-- A result as a caller gives it: an object, or a list whose elements need not be objects.
pub data ResultValue : Type 0 where
  no_result : ResultValue
  single : ResultItem → ResultValue
  many : List (Option ResultItem) → ResultValue

abbrev pub codes : String → List ℕ
codes String.[] = []
codes (String.◌∷◌ c s) = code c ∷ codes s

-- the segments of a text between its slashes
abbrev pub add_to_first : ℕ → List (List ℕ) → List (List ℕ)
add_to_first c [] = (c ∷ []) ∷ []
add_to_first c (s ∷ rest) = (c ∷ s) ∷ rest

abbrev pub segments : List ℕ → List (List ℕ)
segments [] = [] ∷ []
segments (c ∷ cs) = if c == b'/' then [] ∷ segments cs else add_to_first c (segments cs)

abbrev pub within : ℕ → ℕ → ℕ → Bool
within low high c = leb low c && leb c high

-- `[A-Za-z0-9_-]`
abbrev pub is_word : ℕ → Bool
is_word c =
    (within b'A' b'Z' c || within b'a' b'z' c) || (within b'0' b'9' c || (c == b'_' || c == b'-'))

-- `[A-Za-z0-9._-]`
abbrev pub is_name : ℕ → Bool
is_name c = is_word c || c == b'.'

-- `[..]+`, as a whole segment
abbrev pub one_or_more : (ℕ → Bool) → List ℕ → Bool
one_or_more p s = not (is_empty s) && all p s

-- `_INTAKE_URI.fullmatch(uri)`
unfoldable pub is_intake_uri : String → Bool
is_intake_uri uri = intake (segments (codes uri))
  where
    intake : List (List ℕ) → Bool
    intake (scheme ∷ gap ∷ root ∷ batch ∷ file ∷ []) =
        (scheme == codes "artifact:" && is_empty gap)
        && (root == codes "intake" && (one_or_more is_word batch && one_or_more is_name file))
    intake _ = false

-- `_PROCESSING_URI.fullmatch(uri)`
unfoldable pub is_processing_uri : String → Bool
is_processing_uri uri = processing (segments (codes uri))
  where
    root_ok : List ℕ → List ℕ → List ℕ → Bool
    root_ok scheme gap root =
        (scheme == codes "artifact:" && is_empty gap)
        && (root == codes "derived" || (root == codes "sink" || root == codes "render"))

    processing : List (List ℕ) → Bool
    processing (scheme ∷ gap ∷ root ∷ name ∷ []) =
        root_ok scheme gap root && one_or_more is_name name
    processing (scheme ∷ gap ∷ root ∷ name ∷ file ∷ []) =
        root_ok scheme gap root && (one_or_more is_name name && one_or_more is_name file)
    processing _ = false

-- `_KIND_URI`
abbrev pub kind_uri : String → Option (String → Bool)
kind_uri kind =
    if kind == "materialized_source"
    then some is_intake_uri
    else if kind == "processing_output"
    then some is_processing_uri
    else none

abbrev pub text_of : Option String → String
text_of none = ""
text_of (some s) = s

-- `str(artifact.get("uri") or "")`. What is not text is read as empty: neither meets a URI pattern.
abbrev pub uri_text : Dict Value → String
uri_text artifact = text_of (lookup_text "uri" artifact)

unfoldable pub validate_result_item : Option ResultItem → String → Result ItemError Unit
validate_result_item none job_id = raise not_object
validate_result_item (some item) job_id = do
  guard (item.schema_version == some "pdx_internal_job_result_v1") schema_mismatch
  guard (item.job_id == some job_id) job_mismatch
  elim item.kind [
    | none ↦ raise unsupported_kind
    | some kind ↦ elim (kind_uri kind) [
      | none ↦ raise unsupported_kind
      | some is_bound ↦ elim item.artifact [
        | none ↦ raise artifact_not_object
        | some artifact ↦ guard (is_bound (uri_text artifact)) unbound_uri
      ]
    ]
  ]

abbrev pub kind_text : ResultItem → String
kind_text item = text_of item.kind

-- the loop of `validate_result_items`
unfoldable pub collect_items :
    String → List String → List ResultItem → Result ItemError (List ResultItem)
unfolding validate_result_item
collect_items job_id seen [] = ok []
collect_items job_id seen (item ∷ items) = do
  validate_result_item (some item) job_id
  guard (not (elem (kind_text item) seen)) duplicate_kind
  out ← collect_items job_id (seen ++ kind_text item ∷ []) items
  ok (item ∷ out)

unfoldable pub validate_result_items : List ResultItem → String → Result ItemError (List ResultItem)
unfolding collect_items
validate_result_items items job_id = do
  guard (leb (length items) 2) too_many
  collect_items job_id [] items

-- the objects of a list
abbrev pub objects : List (Option ResultItem) → List ResultItem
objects [] = []
objects (none ∷ rest) = objects rest
objects (some item ∷ rest) = item ∷ objects rest

unfoldable pub normalize_result_items : ResultValue → List ResultItem
normalize_result_items no_result = []
normalize_result_items (single item) = item ∷ []
normalize_result_items (many items) = objects items
