-- ===== src/Core/Snapshot/Codec.antt =====
-- Encoding and decoding of snapshots, and what creation fixes.
use pdx_artifact_engine.Prelude.{
  ℕ, List, [], ◌≡◌, ◌≤◌, ◌↔◌, ◌∙◌, ap, arith, ok, guard_passed, is_empty_iff, length, ltb, not,
  true,
}
use pdx_artifact_engine.Core.Snapshot.Defs.{
  Contract, RunSnapshot, Loaded, snapshot, no_json, no_object, misshapen, too_large,
  max_snapshot_bytes, validate_run_snapshot, encode_run_snapshot, decode_run_snapshot,
  accept_loaded,
}

module _ {J E : Type 0} (c : Contract J E) where
  pub record Encoded (s : RunSnapshot J E) (raw : List ℕ) : Type 0 where
    pub valid : validate_run_snapshot c s ≡ []
    pub bounded : length raw ≤ max_snapshot_bytes
    pub result : raw ≡ c.dumps s

  -- What was encoded is valid, within the bound on its length, and the canonical text.
  encode-Encoded :
      (s : RunSnapshot J E) {raw : List ℕ} → encode_run_snapshot c s ≡ ok raw → Encoded s raw
  unfolding encode_run_snapshot
  encode-Encoded s h = record {
    valid = ground (arith, is_empty_iff (validate_run_snapshot c s));
    bounded = ground arith;
    result = ground arith;
  }

  pub record Decodes (raw : List ℕ) (s : RunSnapshot J E) : Type 0 where
    pub bounded : length raw ≤ max_snapshot_bytes
    pub read : c.loads raw ≡ snapshot s
    pub valid : validate_run_snapshot c s ≡ []

  accepted :
      (l : Loaded J E) (s : RunSnapshot J E)
      → (accept_loaded c l ≡ ok s) ↔ ((l ≡ snapshot s) × (validate_run_snapshot c s ≡ []))
  unfolding accept_loaded
  accepted no_json s = ground arith
  accepted no_object s = ground arith
  accepted (misshapen problems) s = ground arith
  accepted (snapshot x) s = (
    λ h.
        let e : x ≡ s = ground arith in
        (ap snapshot e, rw (← e) (ground (arith, is_empty_iff (validate_run_snapshot c x)))),
    λ (e, v).
        let same : s ≡ x = ground arith in
        let w : validate_run_snapshot c x ≡ [] = rw (← same) v in
        ground (arith, w, is_empty_iff (validate_run_snapshot c x), same),
  )

  -- Decoding gives a snapshot exactly where the bytes are within the bound, are the JSON of that
  -- snapshot, and the snapshot is valid.
  pub decode_iff :
      (raw : List ℕ) (s : RunSnapshot J E) → (decode_run_snapshot c raw ≡ ok s) ↔ Decodes raw s
  unfolding decode_run_snapshot
  decode_iff raw s =
      let a = accepted (c.loads raw) s in
      (
        λ h.
            let (fits, rest) =
              guard_passed (not (ltb max_snapshot_bytes (length raw))) too_large
                (accept_loaded c (c.loads raw)) h in
            record { bounded = ground arith; read = (a.0 rest).0; valid = (a.0 rest).1 },
        λ d.
            let fits : not (ltb max_snapshot_bytes (length raw)) ≡ true = ground arith in
            rw fits (a.1 (d.read, d.valid)),
      )

  -- If `json.loads` reads back what the canonical encoder wrote for a snapshot, decoding its
  -- encoding gives the snapshot again.
  pub decode-encode :
      (s : RunSnapshot J E) {raw : List ℕ}
      → c.loads (c.dumps s) ≡ snapshot s
      → encode_run_snapshot c s ≡ ok raw
      → decode_run_snapshot c raw ≡ ok s
  decode-encode s {raw} law h =
      let e = encode-Encoded s h in
      (decode_iff raw s).1
        (record { bounded = e.bounded; read = ap c.loads e.result ∙ law; valid = e.valid })
