-- ===== src/Core/Book.antt =====
-- Decisions in two dictionaries, by idempotency key and by checkpoint, as both the approval ledger
-- (approval.py) and the decision repository (snapshots.py) keep them.
-- `key_of` and `checkpoint_of` read the two identities of a decision.
use pdx_artifact_engine.Prelude.{
  String, [], Option, none, some, ◌≡◌, Dict, lookup, insert, lookup-nil, lookup-insert_self,
  lookup-insert_cases, lookup-insert_new, inl, inr, sym, ap, ◌∙◌,
}

pub record Book (D : Type 0) : Type 0 where
  pub by_key : Dict D
  pub by_checkpoint : Dict D

abbrev pub empty_book : {D : Type 0} → Book D
empty_book = record { by_key = []; by_checkpoint = [] }

abbrev pub store : {D : Type 0} → Book D → String → String → D → Book D
store book k c d = record {
  by_key = insert k d book.by_key;
  by_checkpoint = insert c d book.by_checkpoint;
}

-- Whatever `a` holds, `b` holds under the same identity.
pub record Keeps {D : Type 0} (a b : Book D) : Type 0 where
  pub keys : (k : String) (d : D) → lookup k a.by_key ≡ some d → lookup k b.by_key ≡ some d
  pub checkpoints :
      (c : String) (d : D) → lookup c a.by_checkpoint ≡ some d → lookup c b.by_checkpoint ≡ some d

pub Keeps-refl : {D : Type 0} (a : Book D) → Keeps a a
Keeps-refl a = record { keys = λ k d h. h; checkpoints = λ c d h. h }

pub Keeps-trans : {D : Type 0} {a b c : Book D} → Keeps a b → Keeps b c → Keeps a c
Keeps-trans p q = record {
  keys = λ k d h. q.keys k d (p.keys k d h);
  checkpoints = λ k d h. q.checkpoints k d (p.checkpoints k d h);
}

pub store-Keeps :
    {D : Type 0} (book : Book D) (k c : String) (d : D)
    → lookup k book.by_key ≡ none
    → lookup c book.by_checkpoint ≡ none
    → Keeps book (store book k c d)
store-Keeps book k c d new free = record {
  keys = λ j x h. lookup-insert_new k j d x book.by_key new h;
  checkpoints = λ j x h. lookup-insert_new c j d x book.by_checkpoint free h;
}

module _ {D : Type 0} (key_of : D → String) (checkpoint_of : D → Option String) where
  -- The two dictionaries hold the same decisions, each under its own key and checkpoint.
  pub record IsCoherent (book : Book D) : Type 0 where
    pub keyed :
        (k : String) (d : D)
        → lookup k book.by_key ≡ some d
        → (key_of d ≡ k)
          × ((c : String) × (checkpoint_of d ≡ some c) × (lookup c book.by_checkpoint ≡ some d))
    pub checkpointed :
        (c : String) (d : D)
        → lookup c book.by_checkpoint ≡ some d
        → (checkpoint_of d ≡ some c) × (lookup (key_of d) book.by_key ≡ some d)

  pub empty-IsCoherent : IsCoherent empty_book
  empty-IsCoherent = record {
    keyed = λ k d h. absurd (cc (h, lookup-nil {V = D} k));
    checkpointed = λ c d h. absurd (cc (h, lookup-nil {V = D} c));
  }

  pub store-IsCoherent :
      {book : Book D} (c : String) (d : D)
      → IsCoherent book
      → lookup (key_of d) book.by_key ≡ none
      → lookup c book.by_checkpoint ≡ none
      → checkpoint_of d ≡ some c
      → IsCoherent (store book (key_of d) c d)
  store-IsCoherent {book} c d i new free mine = record {
    keyed = λ k x h. elim (lookup-insert_cases (key_of d) k d x book.by_key h) [
      | inl (e, e') ↦ (
        ap key_of (sym e') ∙ e,
        (
          c,
          ap checkpoint_of (sym e') ∙ mine,
          lookup-insert_self c d book.by_checkpoint ∙ ap some e',
        ),
      )
      | inr (_, old) ↦
          let (e, (a, at, found)) = i.keyed k x old in
          (e, (a, at, lookup-insert_new c a d x book.by_checkpoint free found))
    ];
    checkpointed = λ a x h. elim (lookup-insert_cases c a d x book.by_checkpoint h) [
      | inl (e, e') ↦ (
        ap checkpoint_of (sym e') ∙ (mine ∙ ap some e),
        ap (λ z. lookup (key_of z) (insert (key_of d) d book.by_key)) (sym e')
            ∙ (lookup-insert_self (key_of d) d book.by_key ∙ ap some e'),
      )
      | inr (_, old) ↦
          let (at, found) = i.checkpointed a x old in
          (at, lookup-insert_new (key_of d) (key_of x) d x book.by_key new found)
    ];
  }
