-- ===== src/Core/Extraction/Chain.antt =====
-- The ranges of an extraction: contiguous, counted, and within the limits.
use pdx_artifact_engine.Prelude.{
  ℕ, suc, ◌+◌, ◌≤◌, String, List, [], ◌∷◌, ◌++◌, true, Option, some, ok, is_empty_iff, is_empty,
  guard_passed, nat_eq, ◌≡◌, refl, ◌∙◌, arith, length, length-append,
}
use pdx_artifact_engine.Core.Extraction.Data.{
  AcceptedRange, Amounts, Source, Extraction, Acceptance, Contract,
}
use pdx_artifact_engine.Core.Extraction.Defs.{
  counts_from, first_state, validate_continuable_extraction, create_continuable_extraction,
  accepted_record,
}
use pdx_artifact_engine.Core.Extraction.Steps.{
  Accepted, replayed, accepted, accept-Outcome, Calls, here, call,
}

-- The ranges lead from one descriptor to another: each was asked for as the one before it said.
abbrev pub Linked : Option String → List AcceptedRange → Option String → Type 0
Linked from [] to = from ≡ to
Linked from (r ∷ rs) to = (from ≡ some r.request_range_digest) × Linked r.next_range_digest rs to

Linked-snoc :
    (from : Option String) (rs : List AcceptedRange) (r : AcceptedRange) {to : Option String}
    → Linked from rs to
    → to ≡ some r.request_range_digest
    → Linked from (rs ++ r ∷ []) r.next_range_digest
Linked-snoc from [] r l e = (l ∙ e, refl)
Linked-snoc from (x ∷ rs) r l e = (l.0, Linked-snoc x.next_range_digest rs r l.1 e)

abbrev pub total_blocks : List AcceptedRange → ℕ
total_blocks [] = 0
total_blocks (r ∷ rs) = r.returned_blocks + total_blocks rs

abbrev pub total_bytes : List AcceptedRange → ℕ
total_bytes [] = 0
total_bytes (r ∷ rs) = r.returned_bytes + total_bytes rs

total_blocks-snoc :
    (rs : List AcceptedRange) (r : AcceptedRange)
    → total_blocks (rs ++ r ∷ []) ≡ total_blocks rs + r.returned_blocks
total_blocks-snoc [] r = omega arith
total_blocks-snoc (x ∷ rs) r = omega (arith, total_blocks-snoc rs r)

total_bytes-snoc :
    (rs : List AcceptedRange) (r : AcceptedRange)
    → total_bytes (rs ++ r ∷ []) ≡ total_bytes rs + r.returned_bytes
total_bytes-snoc [] r = omega arith
total_bytes-snoc (x ∷ rs) r = omega (arith, total_bytes-snoc rs r)

counts_from-snoc :
    (n : ℕ) (rs : List AcceptedRange) (r : AcceptedRange)
    → counts_from n rs ≡ true
    → r.sequence ≡ n + length rs
    → counts_from n (rs ++ r ∷ []) ≡ true
counts_from-snoc n [] r h e = ground arith
counts_from-snoc n (x ∷ rs) r h e = ground (arith, counts_from-snoc (suc n) rs r)

module _ {R : Type 0} (c : Contract R) where
  -- The books of an extraction that began with the range `first`.
  pub record IsAccounted (first : R) (source : Source) (limits : Amounts) (s : Extraction R)
      : Type 0 where
    pub linked : Linked (some (c.range_digest first)) s.accepted_ranges s.next_range_digest
    pub numbered : counts_from 1 s.accepted_ranges ≡ true
    pub revision : s.revision ≡ length s.accepted_ranges
    pub ranges : s.consumed.ranges ≡ length s.accepted_ranges
    pub blocks : s.consumed.blocks ≡ total_blocks s.accepted_ranges
    pub bytes : s.consumed.bytes ≡ total_bytes s.accepted_ranges
    pub same_source : s.source ≡ source
    pub same_limits : s.limits ≡ limits

  pub create_is_first :
      (source : Source) (first : R) (limits : Amounts) {s : Extraction R}
      → create_continuable_extraction c source first limits ≡ ok s
      → (validate_continuable_extraction c s ≡ []) × (s ≡ first_state c source first limits)
  unfolding create_continuable_extraction
  create_is_first source first limits {s} h =
      let start = first_state c source first limits in
      let (g, rest) = guard_passed (is_empty (validate_continuable_extraction c start)) _ _ h in
      let same : start ≡ s = cc rest in
      rw (← same) ((is_empty_iff (validate_continuable_extraction c start)).0 g, refl)

  first_state-IsAccounted :
      (source : Source) (first : R) (limits : Amounts)
      → IsAccounted first source limits (first_state c source first limits)
  first_state-IsAccounted source first limits = record {
    linked = refl;
    numbered = refl;
    revision = refl;
    ranges = refl;
    blocks = refl;
    bytes = refl;
    same_source = refl;
    same_limits = refl;
  }

  Accepted-IsAccounted :
      {first : R} {source : Source} {limits : Amounts} {s s' : Extraction R} (a : Acceptance R)
      → Accepted c s a s'
      → IsAccounted first source limits s
      → IsAccounted first source limits s'
  Accepted-IsAccounted {first} {s = s} a h i =
      let r = accepted_record c s a in
      rw h.result (record {
        linked =
            Linked-snoc (some (c.range_digest first)) s.accepted_ranges r i.linked h.was_expected;
        numbered = counts_from-snoc 1 s.accepted_ranges r i.numbered (omega arith);
        revision = omega (arith, i.revision, length-append {0} s.accepted_ranges (r ∷ []));
        ranges = omega (arith, i.ranges, length-append {0} s.accepted_ranges (r ∷ []));
        blocks = omega (arith, i.blocks, total_blocks-snoc s.accepted_ranges r);
        bytes = omega (arith, i.bytes, total_bytes-snoc s.accepted_ranges r);
        same_source = i.same_source;
        same_limits = i.same_limits;
      })

  Calls-IsAccounted :
      {first : R} {source : Source} {limits : Amounts} {start s : Extraction R}
      → validate_continuable_extraction c start ≡ []
      → IsAccounted first source limits start
      → Calls c start s
      → (validate_continuable_extraction c s ≡ []) × IsAccounted first source limits s
  Calls-IsAccounted v i here = (v, i)
  Calls-IsAccounted v i (call {s = m} calls a h) =
      let (v', i') = Calls-IsAccounted v i calls in
      elim (accept-Outcome c m a h).1 [
        | replayed r found same e ↦ rw e (v', i')
        | accepted k ↦ (k.valid, Accepted-IsAccounted a k i')
      ]

  pub record WithinLimits (s : Extraction R) : Type 0 where
    pub ranges : s.consumed.ranges ≤ s.limits.ranges
    pub blocks : s.consumed.blocks ≤ s.limits.blocks
    pub bytes : s.consumed.bytes ≤ s.limits.bytes

  valid-WithinLimits :
      (s : Extraction R) → validate_continuable_extraction c s ≡ [] → WithinLimits s
  unfolding validate_continuable_extraction
  valid-WithinLimits s v = record {
    ranges = ground arith;
    blocks = ground arith;
    bytes = ground arith;
  }

  -- From a created extraction, any successful calls leave the books right: the accepted ranges are
  -- numbered from one, each is the range that the one before it named as the next, the first is
  -- the first range and the last one names the range the extraction now waits for; the revision and
  -- the consumed ranges, blocks and bytes are the sums over the accepted ranges, what is consumed
  -- is within the limits, and the source and the limits are those of the creation.
  pub accept_range-IsAccounted :
      (source : Source) (first : R) (limits : Amounts) {start s : Extraction R}
      → create_continuable_extraction c source first limits ≡ ok start
      → Calls c start s
      → IsAccounted first source limits s × WithinLimits s
  accept_range-IsAccounted source first limits {start} {s} made calls =
      let (valid, is_first) = create_is_first source first limits made in
      let (valid', books) =
        Calls-IsAccounted valid (rw is_first (first_state-IsAccounted source first limits)) calls in
      (books, valid-WithinLimits s valid')
