-- ===== src/Core/Extraction/Omissions.antt =====
-- What an extraction leaves out, as its ranges name it and as its coverage reports it.
use pdx_artifact_engine.Prelude.{
  String, List, [], ◌∷◌, ◌++◌, Bool, ◌||◌, any, any-append, elem, string_eq, some, ok, is_some, not,
  ◌≡◌, ◌⊎◌, inl, inr, refl, sym, ap, ◌∙◌, arith, Bool-cases,
}
use pdx_artifact_engine.Core.Extraction.Data.{
  Phase, AcceptedRange, Amounts, Source, Extraction, Acceptance, Contract,
}
use pdx_artifact_engine.Core.Extraction.Defs.{create_continuable_extraction, accepted_record}
use pdx_artifact_engine.Core.Extraction.Chain.{create_is_first}
use pdx_artifact_engine.Core.Extraction.Steps.{
  Accepted, replayed, accepted, accept-Outcome, Calls, here, call,
}

-- Does one of the ranges name the omission?
abbrev pub is_named : String → List AcceptedRange → Bool
is_named omission ranges = any (λ r. elem omission r.omissions) ranges

module _ {R : Type 0} (c : Contract R)
    (union : (x : String) (xs ys : List String)
      → elem x (c.sorted_union xs ys) ≡ (elem x xs || elem x ys)) where
  -- The coverage so far has the omissions of the ranges, and is the terminal one at the end.
  pub record IsReported (s : Extraction R) : Type 0 where
    pub named :
        (omission : String)
        → elem omission s.coverage_accumulator.omissions ≡ is_named omission s.accepted_ranges
    pub ended : (s.state ≡ Phase.pending) ⊎ (s.terminal_coverage ≡ some s.coverage_accumulator)

  is_named-snoc :
      (omission : String) (rs : List AcceptedRange) (r : AcceptedRange)
      → is_named omission (rs ++ r ∷ []) ≡ (is_named omission rs || elem omission r.omissions)
  is_named-snoc omission rs r =
      ground (arith, any-append (λ r. elem omission r.omissions) rs (r ∷ []))

  Accepted-IsReported :
      {s s' : Extraction R} (a : Acceptance R) → Accepted c s a s' → IsReported s → IsReported s'
  Accepted-IsReported {s} a h p = rw h.result (record {
    named = λ omission.
        union omission s.coverage_accumulator.omissions a.omissions
        ∙ ap (λ b. b || elem omission a.omissions) (p.named omission)
        ∙ sym (is_named-snoc omission s.accepted_ranges (accepted_record c s a));
    ended = elim (Bool-cases (not (is_some a.next_range))) [
      | inl e ↦ inr (ground arith)
      | inr e ↦ inl (ground (arith, h.was_pending))
    ];
  })

  Calls-IsReported : {start s : Extraction R} → IsReported start → Calls c start s → IsReported s
  Calls-IsReported p here = p
  Calls-IsReported p (call {s = m} calls a h) = elim (accept-Outcome c m a h).1 [
    | replayed r found same e ↦ rw e (Calls-IsReported p calls)
    | accepted k ↦ Accepted-IsReported a k (Calls-IsReported p calls)
  ]

  pub made-IsReported :
      (source : Source) (first : R) (limits : Amounts) {start s : Extraction R}
      → create_continuable_extraction c source first limits ≡ ok start
      → Calls c start s
      → IsReported s
  made-IsReported source first limits made calls =
      Calls-IsReported
        (rw (create_is_first c source first limits made).1
          (record { named = λ omission. refl; ended = inl refl }))
        calls
