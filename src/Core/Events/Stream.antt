-- ===== src/Core/Events/Stream.antt =====
-- `validate_ordered_run_events` against a description of ordered streams.
use pdx_artifact_engine.Prelude.{
  ℕ, suc, String, List, [], ◌∷◌, ◌++◌, map, Bool, true, false, Option, none, some, ◌≡◌, ◌↔◌, refl,
  arith, is_empty, is_empty_iff, ltb, not, ◌&&◌, ◌==◌, string_eq, elem, all, unique,
  append-eq-nil_iff, ◌≢◌, ==_refl, Bool-cases, ==_iff, sym, ◌∙◌, inl, inr,
}
use pdx_artifact_engine.Core.Events.{
  RunEvent, Scan, event_error, validate_run_event_v1, scan_errors, scan_event, scan_events,
  validate_ordered_run_events, scan_start,
}

-- All of the numbers rise.
abbrev pub increasing : List ℕ → Bool
increasing [] = true
increasing (a ∷ []) = true
increasing (a ∷ b ∷ ns) = ltb a b && increasing (b ∷ ns)

-- All of the texts are one.
abbrev pub all_same : List String → Bool
all_same [] = true
all_same (r ∷ rs) = all (λ s. s == r) rs

module _ {J : Type 0} (schema_errors : RunEvent J → List String) where
  -- Every event is valid, all belong to one run, no identity occurs twice, and the sequence
  -- numbers rise.
  pub record IsOrdered (events : List (RunEvent J)) : Type 0 where
    pub valid : all (λ e. is_empty (validate_run_event_v1 schema_errors e)) events ≡ true
    pub one_run : all_same (map (λ e. e.run_id) events) ≡ true
    pub distinct : unique (map (λ e. e.event_id) events) ≡ true
    pub rising : increasing (map (λ e. e.sequence) events) ≡ true

  -- What the loop asks of the rest of a stream, after what it remembers.
  follows : Option String → Option ℕ → List String → List (RunEvent J) → Bool
  follows run prev ids [] = true
  follows run prev ids (e ∷ es) =
      (is_empty (validate_run_event_v1 schema_errors e)
        && (elim run [ none ↦ true | some r ↦ e.run_id == r ]
            && (not (elem e.event_id ids)
                && elim prev [ none ↦ true | some p ↦ ltb p e.sequence ])))
      && follows (elim run [ none ↦ some e.run_id | some r ↦ some r ]) (some e.sequence)
          (e.event_id ∷ ids) es

  scan_errors-eq-nil_iff :
      (i : ℕ) (e : RunEvent J) (s : Scan)
      → (scan_errors schema_errors i e s ≡ []) ↔ (
          (elim s.run_id [ none ↦ true | some r ↦ e.run_id == r ]
            && (not (elem e.event_id s.event_ids)
                && elim s.previous_sequence [ none ↦ true | some p ↦ ltb p e.sequence ]))
          ≡ true)
  unfolding scan_errors
  scan_errors-eq-nil_iff i e s = ground arith

  scan_event-errors :
      (i : ℕ) (e : RunEvent J) (s : Scan)
      → is_empty (validate_run_event_v1 schema_errors e) ≡ false
      → (scan_event schema_errors i e s).errors ≢ []
  unfolding scan_event
  scan_event-errors i e s bad h = ground (
    arith,
    append-eq-nil_iff s.errors (map (event_error i) (validate_run_event_v1 schema_errors e)),
    is_empty_iff (validate_run_event_v1 schema_errors e),
  )

  abbrev next_scan : ℕ → RunEvent J → Scan → Scan
  next_scan i e s = record {
    errors = s.errors ++ scan_errors schema_errors i e s;
    event_ids = e.event_id ∷ s.event_ids;
    run_id = elim s.run_id [ none ↦ some e.run_id | some r ↦ some r ];
    previous_sequence = some e.sequence;
  }

  scan_event_valid :
      (i : ℕ) (e : RunEvent J) (s : Scan)
      → is_empty (validate_run_event_v1 schema_errors e) ≡ true
      → scan_event schema_errors i e s ≡ next_scan i e s
  unfolding scan_event
  scan_event_valid i e s good = rw good

  -- The loop ends with no message exactly when it began with none and the rest follows.
  scan_events-errors :
      (i : ℕ) (es : List (RunEvent J)) (s : Scan)
      → ((scan_events schema_errors i es s).errors ≡ [])
        ↔ ((s.errors ≡ []) × (follows s.run_id s.previous_sequence s.event_ids es ≡ true))
  unfolding scan_events follows
  scan_events-errors i [] s = (λ h. (h, refl), λ h. h.0)
  scan_events-errors i (e ∷ es) s =
      elim (Bool-cases (is_empty (validate_run_event_v1 schema_errors e))) [
        | inl good ↦
            rw (scan_event_valid i e s good, scan_events, follows)
              (ground (
                arith,
                scan_events-errors (suc i) es (next_scan i e s),
                append-eq-nil_iff s.errors (scan_errors schema_errors i e s),
                scan_errors-eq-nil_iff i e s,
              ))
        | inr bad ↦ ground (
          arith,
          scan_events-errors (suc i) es (scan_event schema_errors i e s),
          scan_event-errors i e s,
        )
      ]

  all_fresh-cons :
      (i : String) (ids : List String) (es : List (RunEvent J))
      → all (λ x. not (elem x.event_id (i ∷ ids))) es
        ≡ (not (elem i (map (λ x. x.event_id) es)) && all (λ x. not (elem x.event_id ids)) es)
  all_fresh-cons i ids [] = refl
  all_fresh-cons i ids (e ∷ es) =
      ground (arith, ==_iff e.event_id i, ==_iff i e.event_id, all_fresh-cons i ids es)

  follows-after :
      (r : String) (p : ℕ) (ids : List String) (es : List (RunEvent J))
      → follows (some r) (some p) ids es ≡ (
          all (λ e. is_empty (validate_run_event_v1 schema_errors e)) es
          && (all (λ x. x == r) (map (λ e. e.run_id) es)
              && ((all (λ x. not (elem x.event_id ids)) es && unique (map (λ e. e.event_id) es))
                  && increasing (p ∷ map (λ e. e.sequence) es))))
  unfolding follows
  follows-after r p ids [] = refl
  follows-after r p ids (e ∷ es) =
      rw (follows-after r e.sequence (e.event_id ∷ ids) es, all_fresh-cons e.event_id ids es)
        (ground arith)

  all_fresh-nil : (es : List (RunEvent J)) → all (λ x. not (elem x.event_id [])) es ≡ true
  all_fresh-nil [] = refl
  all_fresh-nil (e ∷ es) = all_fresh-nil es

  follows-start :
      (es : List (RunEvent J))
      → follows none none [] es ≡ (
          all (λ e. is_empty (validate_run_event_v1 schema_errors e)) es
          && (all_same (map (λ e. e.run_id) es)
              && (unique (map (λ e. e.event_id) es) && increasing (map (λ e. e.sequence) es))))
  unfolding follows
  follows-start [] = refl
  follows-start (e ∷ es) =
      rw (follows-after e.run_id e.sequence (e.event_id ∷ []) es, all_fresh-cons e.event_id [] es)
        (ground (arith, ==_refl e.run_id, all_fresh-nil es))

  -- The check finds no error exactly in the ordered streams: every event valid, all of one run, no
  -- identity twice, and the sequence numbers rising.
  pub validate-IsOrdered_iff :
      (es : List (RunEvent J)) → (validate_ordered_run_events schema_errors es ≡ []) ↔ IsOrdered es
  unfolding validate_ordered_run_events
  validate-IsOrdered_iff es =
      let loop = scan_events-errors 0 es scan_start in
      (
        λ h.
            let f = sym (follows-start es) ∙ (loop.0 h).1 in
            record {
              valid = ground arith;
              one_run = ground arith;
              distinct = ground arith;
              rising = ground arith;
            },
        λ h. loop.1 (refl, follows-start es ∙ ground arith),
      )
