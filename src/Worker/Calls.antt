-- ===== src/Worker/Calls.antt =====
-- A worker that loses its lease while it works, and the row of the job that others have then.
use pdx_artifact_engine.Prelude.{
  ℕ, ◌+◌, ◌≤◌, ◌<◌, String, List, Bool, true, false, some, Result, ok, raise, elem, ltb, nat_eq,
  string_eq, ◌≡◌, refl, sym, ap, ◌∙◌, subst, arith, inl, inr, Bool-cases,
}
use pdx_artifact_engine.Jobs.Rows.{JobRow, has_token, may_update}
use pdx_artifact_engine.Jobs.Store.{JobRecord, StoreError, update, overwrite}
use pdx_artifact_engine.Jobs.Table.{find_row, find_row-kept, ids, ids-update_where}
use pdx_artifact_engine.Jobs.Effects.{updated_rows}
use pdx_artifact_engine.JobService.World.{
  World, Session, Outside, store_get, store_update, store_holds, with_rows, lost_is_set, set_lost,
  staging_read, staging_delete,
}
use pdx_artifact_engine.Staging.{read_bytes, delete}
use pdx_artifact_engine.Worker.Invariant.{IsInvariant}
use pdx_artifact_engine.Worker.Lease.{JobWorker}
use pdx_artifact_engine.Worker.Kernel.{KernelClient}
use pdx_artifact_engine.Worker.Process.{process_locked}
use pdx_artifact_engine.Worker.Processing.{process_locked-Keeps}

-- The table has the job.
abbrev pub HasJob : String → World → Type 0
HasJob job_id w = elem job_id (ids w.rows) ≡ true

-- The row of the job does not carry the token, and is as others want it.
pub record IsTaken (token job_id : String) (Theirs : JobRow → Type 0) (w : World) : Type 0 where
  pub row : JobRow
  pub here : find_row job_id w.rows ≡ some row
  pub elsewhere : has_token token row ≡ false
  pub theirs : Theirs row

-- What others do around the calls of a worker: they take the job away before the call with the number
-- `n`. Earlier they do anything but delete it, and later anything that leaves it taken.
record Takeover (others : ℕ → World → World) (token job_id : String) (Theirs : JobRow → Type 0)
    (n : ℕ) : Type 0 where
  earlier : (m : ℕ) (w : World) → m < n → HasJob job_id w → HasJob job_id (others m w)
  takes : (w : World) → HasJob job_id w → IsTaken token job_id Theirs (others n w)
  later :
      (m : ℕ) (w : World)
      → n < m
      → IsTaken token job_id Theirs w
      → IsTaken token job_id Theirs (others m w)

module _ (others : ℕ → World → World) (o : Outside) (token job_id : String)
    (Theirs : JobRow → Type 0) (n : ℕ) (takeover : Takeover others token job_id Theirs n) where
  -- Before the takeover the job is there, and after it the job is taken.
  record IsSafe (s : Session) : Type 0 where
    before : s.tick ≤ n → HasJob job_id s.world
    after : n < s.tick → IsTaken token job_id Theirs s.world

  -- a change of the world that keeps both
  record IsGentle (f : World → World) : Type 0 where
    there : (w : World) → HasJob job_id w → HasJob job_id (f w)
    taken : (w : World) → IsTaken token job_id Theirs w → IsTaken token job_id Theirs (f w)

  updated-HasJob :
      (r : JobRecord) (w : World) (u : Result StoreError (Bool × List JobRow))
      → update o.json w.rows r (some token) ≡ u
      → HasJob job_id w
      → HasJob job_id (with_rows others o w u).1
  updated-HasJob r w (raise e) h p = p
  updated-HasJob r w (ok (done, rows)) h p =
      let (json, is_done, same) = updated_rows o.json w.rows r (some token) h in
      ap (λ x. elem job_id (ids x)) same
      ∙ ap (elem job_id) (
          ids-update_where (may_update r.job_id (some token)) (overwrite o.json r json) (λ x. refl)
            w.rows)
      ∙ p

  updated-IsTaken :
      (r : JobRecord) (w : World) (u : Result StoreError (Bool × List JobRow))
      → update o.json w.rows r (some token) ≡ u
      → IsTaken token job_id Theirs w
      → IsTaken token job_id Theirs (with_rows others o w u).1
  updated-IsTaken r w (raise e) h p = p
  updated-IsTaken r w (ok (done, rows)) h p =
      let (json, is_done, same) = updated_rows o.json w.rows r (some token) h in
      record {
        row = p.row;
        here =
            ap (find_row job_id) same
            ∙ find_row-kept (may_update r.job_id (some token)) (overwrite o.json r json) job_id
                w.rows p.row (λ x. refl) (ground (arith, p.elsewhere)) p.here;
        elsewhere = p.elsewhere;
        theirs = p.theirs;
      }

  restaged :
      (w w' : World)
      → w'.rows ≡ w.rows
      → IsTaken token job_id Theirs w
      → IsTaken token job_id Theirs w'
  restaged w w' same p = record {
    row = p.row;
    here = ap (find_row job_id) same ∙ p.here;
    elsewhere = p.elsewhere;
    theirs = p.theirs;
  }

  alike-IsGentle : (f : World → World) → ((w : World) → (f w).rows ≡ w.rows) → IsGentle f
  alike-IsGentle f same = record {
    there = λ w p. ap (λ x. elem job_id (ids x)) (same w) ∙ p;
    taken = λ w p. restaged w (f w) (same w) p;
  }

  -- A call between whose number and that of the takeover the world of a session stays safe.
  call-IsSafe :
      (f : World → World)
      → IsGentle f
      → (s : Session) → IsSafe s
      → IsSafe (record { tick = s.tick + 1; world = f (others s.tick s.world) })
  call-IsSafe f gentle s p = record {
    before = λ le.
        gentle.there (others s.tick s.world)
          (takeover.earlier s.tick s.world (omega (arith, le)) (p.before (omega (arith, le))));
    after = λ lt. elim (Bool-cases (ltb n s.tick)) [
      | inl past ↦
          let over : n < s.tick = ground (arith, past) in
          gentle.taken (others s.tick s.world) (takeover.later s.tick s.world over (p.after over))
      | inr now ↦
          let at : s.tick ≡ n = ground (arith, now, lt) in
          gentle.taken (others s.tick s.world) (
            subst (λ m. IsTaken token job_id Theirs (others m s.world)) (sym at)
              (takeover.takes s.world (p.before (omega (arith, at)))))
    ];
  }

  IsSafe-IsInvariant : IsInvariant others o token IsSafe
  unfolding store_update store_get store_holds lost_is_set set_lost staging_read staging_delete
  IsSafe-IsInvariant = record {
    updates = λ r. record {
      keep = λ s p.
          call-IsSafe _
            (record {
              there = λ w. updated-HasJob r w _ refl;
              taken = λ w. updated-IsTaken r w _ refl;
            })
            s p;
    };
    holds = λ id owner t. record {
      keep = λ s p. call-IsSafe _ (alike-IsGentle (λ w. w) (λ w. refl)) s p;
    };
    lost = record { keep = λ s p. call-IsSafe _ (alike-IsGentle (λ w. w) (λ w. refl)) s p };
    sets_lost = λ b. record {
      keep = λ s p. call-IsSafe _ (alike-IsGentle (λ w. record w { lost = b }) (λ w. refl)) s p;
    };
    gets = λ id. record { keep = λ s p. call-IsSafe _ (alike-IsGentle (λ w. w) (λ w. refl)) s p };
    reads = λ handle now. record {
      keep = λ s p.
          call-IsSafe _
            (alike-IsGentle (λ w. record w { staging = (read_bytes w.staging handle now).1 })
              (λ w. refl))
            s p;
    };
    deletes = λ handle. record {
      keep = λ s p.
          call-IsSafe _
            (alike-IsGentle (λ w. record w { staging = delete w.staging handle }) (λ w. refl)) s p;
    };
    asks = λ s p. call-IsSafe (λ w. w) (alike-IsGentle (λ w. w) (λ w. refl)) s p;
  }

-- Others may take a job away from a worker at any moment of its work, also while its Kernel computes:
-- before its call of a store, or during its call of the Kernel, with any number. If the worker makes
-- that call at all, the row of the job at the end of its work is as the others left it last: it does not
-- carry the worker's token, and it has whatever property they gave it at the takeover and kept up.
-- Nothing that the worker writes after the takeover reaches the row, whatever the Kernel answers.
pub IsTaken-stays :
    (others : ℕ → World → World) (o : Outside) (me : JobWorker) (k : KernelClient)
    (token job_id claimed : String) (Theirs : JobRow → Type 0) (n now : ℕ) (s : Session)
    → ((m : ℕ) (w : World) → m < n → HasJob job_id w → HasJob job_id (others m w))
    → ((w : World) → HasJob job_id w → IsTaken token job_id Theirs (others n w))
    → ((m : ℕ) (w : World)
        → n < m
        → IsTaken token job_id Theirs w
        → IsTaken token job_id Theirs (others m w))
    → s.tick ≤ n
    → HasJob job_id s.world
    → n < (process_locked others o me k token claimed now s).1.tick
    → IsTaken token job_id Theirs (process_locked others o me k token claimed now s).1.world
IsTaken-stays others o me k token job_id claimed Theirs n now s earlier takes later early there
      called =
    let takeover : Takeover others token job_id Theirs n = record {
      earlier = earlier;
      takes = takes;
      later = later;
    } in
    let start : IsSafe others o token job_id Theirs n takeover s = record {
      before = λ le. there;
      after = λ lt. absurd (omega (arith, early, lt));
    } in
    ((process_locked-Keeps others o me k token (IsSafe others o token job_id Theirs n takeover)
          (IsSafe-IsInvariant others o token job_id Theirs n takeover) claimed now).keep
        s start).after
      called
