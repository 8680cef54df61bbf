-- ===== src/Jobs/Attempts.antt =====
-- The attempts of a task (crates/lakeforge-api/src/api/jobs.rs, `execute_run_inner`).
use lakeforge.Prelude.{
  ℕ, zero, suc, ◌+◌, ◌≤◌, ◌<◌, ◌≡◌, refl, sym, true, false, some, Bool-cases, inl, inr, arith,
  ltb→lt, nat_beq, u32, ◌^◌, ap, ◌∙◌, if◌then◌else◌,
}
use lakeforge.Jobs.Runs.{
  TaskDef, TaskEnd, succeeded, failed, timed_out, canceled, condition, at_most,
}
use lakeforge.Jobs.Batch.{below, retries_after, attempts}

-- Another attempt is made only below the limit.
retries-below :
    (d : TaskDef) (n attempt : ℕ) (e : TaskEnd)
    → d.max_retries ≡ at_most n
    → retries_after d attempt e ≡ true
    → attempt < n
unfolding retries_after
retries-below d n attempt succeeded m h = cc
retries-below d n attempt (failed x) m h = ltb→lt attempt n (rw m at h)
retries-below d n attempt (timed_out x) m h =
    let le : below attempt d.max_retries ≡ true = ground arith in ltb→lt attempt n (rw m at le)
retries-below d n attempt (canceled x) m h = cc
retries-below d n attempt (condition b) m h = cc

-- The attempts from `attempt` on.
attempts_from :
    (fuel : ℕ) (d : TaskDef) (ends : ℕ → TaskEnd) (attempt n : ℕ)
    → d.max_retries ≡ at_most n
    → attempt ≤ n
    → n < fuel + attempt
    → n + 1 < 2 ^ 32
    → (last : ℕ) × (attempts fuel d ends attempt ≡ some (suc last, ends last))
      × (attempt ≤ last)
      × (last ≤ n)
      × (retries_after d last (ends last) ≡ false)
      × ((i : ℕ) → attempt ≤ i → i < last → retries_after d i (ends i) ≡ true)
unfolding attempts
attempts_from zero d ends attempt n m le h small = absurd (omega arith)
attempts_from (suc fuel) d ends attempt n m le h small =
    let counted : u32 (attempt + 1) ≡ suc attempt = omega arith in
    elim (Bool-cases (retries_after d attempt (ends attempt))) [
      | inr stops ↦ (
        attempt,
        rw (stops, counted) refl,
        omega arith,
        le,
        stops,
        (λ i a b. absurd (omega arith)),
      )
      | inl goes ↦
          let less = retries-below d n attempt (ends attempt) m goes in
          let (last, e, lo, hi, stops, earlier) =
            attempts_from fuel d ends (suc attempt) n m (omega arith) (omega arith) small in
          (
            last,
            ap
                  (λ b.
                    if b
                    then attempts fuel d ends (u32 (attempt + 1))
                    else some (u32 (attempt + 1), ends attempt))
                  goes
                ∙ ap (attempts fuel d ends) counted
                ∙ e,
            omega arith,
            hi,
            stops,
            (λ i a b. elim (Bool-cases (nat_beq attempt i)) [
              | inl now ↦ let same : attempt ≡ i = ground arith in rw (sym same) goes
              | inr later ↦ earlier i (ground arith) b
            ]),
          )
    ]

-- A task with `max_retries` = n, where n + 1 fits the `u32` that counts attempts, is attempted at most n + 1 times: the attempts end, with the first
-- end after which no retry is due, and the number of attempts counts those up to it.
pub attempts_lem :
    (d : TaskDef) (ends : ℕ → TaskEnd) (n : ℕ)
    → d.max_retries ≡ at_most n
    → n + 1 < 2 ^ 32
    → (last : ℕ) × (attempts (suc n) d ends 0 ≡ some (suc last, ends last))
      × (last ≤ n)
      × (retries_after d last (ends last) ≡ false)
      × ((i : ℕ) → i < last → retries_after d i (ends i) ≡ true)
attempts_lem d ends n m small =
    let (last, e, _, hi, stops, earlier) =
      attempts_from (suc n) d ends 0 n m (omega arith) (omega arith) small in
    (last, e, hi, stops, (λ i b. earlier i (omega arith) b))
