-- ===== src/Pipeline/Prefix.antt =====
-- `run` of crates/cfglib/src/transform/pass.rs applies a prefix of the schedule.
use mathlib.Core.List.{append_assoc, append-nil}
use cfglib.Prelude.{
  ◌≡◌, refl, sym, subst, ◌∙◌, ap, ◌⊎◌, inl, inr, List, [], ◌∷◌, ◌++◌, arith, Bool-cases, ltb,
}
use cfglib.Pipeline.{
  PassChange, is_changed, Pass, PassExecution, PassReport, PassFailure, changed_count, any_changed,
  id, run_loop, run,
}

-- What a pass returned, split by whether it failed.
outcome-cases :
    {S T A B : Type 0} (x : S × T × (A ⊎ B))
    → ((s : S) × (t : T) × (a : A) × (x ≡ (s, t, inl a)))
      ⊎ ((s : S) × (t : T) × (b : B) × (x ≡ (s, t, inr b)))
outcome-cases (s, t, inl a) = inl (s, t, a, refl)
outcome-cases (s, t, inr b) = inr (s, t, b, refl)

module _ {Name : Type 0} where
  -- A report says that something changed exactly when the number of changes is positive.
  pub any_changed-changed_count :
      (report : PassReport Name) → any_changed report ≡ ltb 0 (changed_count report)
  unfolding any_changed changed_count
  any_changed-changed_count [] = refl
  any_changed-changed_count (e ∷ es) = elim (Bool-cases (is_changed e.change)) [
    | inl p ↦ rw p (ground arith)
    | inr p ↦ rw p (any_changed-changed_count es)
  ]

  module _ {S T E : Type 0} where
    -- Every pass of a schedule applied in order and succeeded: the passes with the states that they
    -- are left with, the target that the last one leaves, and one entry of the report for each.
    pub data Ran
        : List (Pass Name S T E) → T → List (Pass Name S T E) → T → PassReport Name → Type 0 where
      none_left : (t : T) → Ran [] t [] t []
      applied :
          (p : Pass Name S T E) (ps moved : List (Pass Name S T E)) (t t' last : T) (s' : S)
          (c : PassChange) (report : PassReport Name)
          → p.apply p.state t ≡ (s', t', inl c)
          → Ran ps t' moved last report
          → Ran
              (p ∷ ps)
              t
              (record p { state = s' } ∷ moved)
              last
              ((record { id = id p; change = c }) ∷ report)

    -- How a run that extends the report `before` ends: every pass applied and succeeded, or those in
    -- front of one that failed.
    abbrev pub Completes :
        List (Pass Name S T E)
        → T
        → PassReport Name
        → List (Pass Name S T E) × T × (PassReport Name ⊎ PassFailure Name E)
        → Type 0
    Completes passes target before (after, target', result) =
        ((report : PassReport Name) × (result ≡ inl (before ++ report))
          × Ran passes target after target' report)
        ⊎ ((done moved later : List (Pass Name S T E)) × (p : Pass Name S T E) × (s' : S) × (t : T)
            × (error : E) × (report : PassReport Name) × (result
                ≡ inr (record { pass = id p; error = error; completed = before ++ report }))
            × (passes ≡ done ++ p ∷ later)
            × (after ≡ moved ++ record p { state = s' } ∷ later)
            × Ran done target moved t report
            × (p.apply p.state t ≡ (s', target', inr error)))

    run_loop-nil :
        (t : T) (report : PassReport Name)
        → run_loop {Name = Name} {S = S} {T = T} {E = E} [] t report ≡ ([], t, inl report)
    unfolding run_loop
    run_loop-nil t report = refl

    run_loop-ok :
        (p : Pass Name S T E) (ps : List (Pass Name S T E)) (t : T) (report : PassReport Name)
        (s' : S) (t' : T) (c : PassChange)
        → p.apply p.state t ≡ (s', t', inl c)
        → run_loop (p ∷ ps) t report ≡ (
          record p { state = s' }
              ∷ (run_loop ps t' (report ++ (record { id = id p; change = c }) ∷ [])).0,
          (run_loop ps t' (report ++ (record { id = id p; change = c }) ∷ [])).1,
          (run_loop ps t' (report ++ (record { id = id p; change = c }) ∷ [])).2,
        )
    unfolding run_loop
    run_loop-ok p ps t report s' t' c e = rw (e, e)

    run_loop-failed :
        (p : Pass Name S T E) (ps : List (Pass Name S T E)) (t : T) (report : PassReport Name)
        (s' : S) (t' : T) (error : E)
        → p.apply p.state t ≡ (s', t', inr error)
        → run_loop (p ∷ ps) t report ≡ (
          record p { state = s' } ∷ ps,
          t',
          inr (record { pass = id p; error = error; completed = report }),
        )
    unfolding run_loop
    run_loop-failed p ps t report s' t' error e = rw (e, e)

    Completes-cons :
        (p : Pass Name S T E) (ps : List (Pass Name S T E)) (t t' : T) (s' : S) (c : PassChange)
        (before : PassReport Name)
        (r : List (Pass Name S T E) × T × (PassReport Name ⊎ PassFailure Name E))
        → p.apply p.state t ≡ (s', t', inl c)
        → Completes ps t' (before ++ (record { id = id p; change = c }) ∷ []) r
        → Completes (p ∷ ps) t before (record p { state = s' } ∷ r.0, r.1, r.2)
    Completes-cons p ps t t' s' c before (after, last, result) gives (inl (report, e, ran)) =
        let entry : PassExecution Name = record { id = id p; change = c } in
        inl (
          entry ∷ report,
          e ∙ ap inl (append_assoc before (entry ∷ []) report),
          applied p ps after t t' last s' c report gives ran,
        )
    Completes-cons p ps t t' s' c before (after, last, result) gives
          (inr (done, moved, later, q, s'', t'', error, report, e, split, left, ran, fails)) =
        let entry : PassExecution Name = record { id = id p; change = c } in
        inr (
          p ∷ done,
          record p { state = s' } ∷ moved,
          later,
          q,
          s'',
          t'',
          error,
          entry ∷ report,
          e
              ∙ ap (λ completed. inr (record { pass = id q; error = error; completed = completed }))
                  (append_assoc before (entry ∷ []) report),
          ap (◌∷◌ p) split,
          ap (◌∷◌ (record p { state = s' })) left,
          applied p done moved t t' t'' s' c report gives ran,
          fails,
        )

    run_loop-Completes :
        (passes : List (Pass Name S T E)) (target : T) (before : PassReport Name)
        → Completes passes target before (run_loop passes target before)
    unfolding run_loop
    run_loop-Completes [] target before =
        inl ([], ap inl (sym (append-nil before)), none_left target)
    run_loop-Completes (p ∷ ps) target before = elim (outcome-cases (p.apply p.state target)) [
      | inl (s', t', c, e) ↦
          let grown = before ++ (record { id = id p; change = c }) ∷ [] in
          subst (Completes (p ∷ ps) target before) (sym (run_loop-ok p ps target before s' t' c e))
            (Completes-cons p ps target t' s' c before (run_loop ps t' grown) e
              (run_loop-Completes ps t' grown))
      | inr (s', t', error, e) ↦
          subst (Completes (p ∷ ps) target before)
            (sym (run_loop-failed p ps target before s' t' error e))
            (inr (
              [],
              [],
              ps,
              p,
              s',
              target,
              error,
              [],
              ap (λ completed. inr (record { pass = id p; error = error; completed = completed }))
                  (sym (append-nil before)),
              refl,
              refl,
              none_left target,
              e,
            ))
    ]

    -- A run of a schedule ends in one of two ways. Either every pass is applied in order, each
    -- with its own state and to the target that the one before it left, none fails, the passes are
    -- left with their new states, and the report has one entry for each pass, its identity and its
    -- change. Or the passes in front of one are applied and succeed so, that one is applied to the
    -- target that they left and fails, the failure has its identity, its error and the report of
    -- those before it, the target is what the failing pass left, and the passes behind it are as
    -- they were.
    pub run-Completes :
        (passes : List (Pass Name S T E)) (target : T)
        → Completes passes target [] (run passes target)
    unfolding run
    run-Completes passes target = run_loop-Completes passes target []

    -- What a run of `qs` makes of the outcome of a run in front of it: it goes on with the target
    -- and the report, unless a pass has failed.
    abbrev pub then_run :
        List (Pass Name S T E)
        → List (Pass Name S T E) × T × (PassReport Name ⊎ PassFailure Name E)
        → List (Pass Name S T E) × T × (PassReport Name ⊎ PassFailure Name E)
    then_run qs (ps, t, inl report) =
        (ps ++ (run_loop qs t report).0, (run_loop qs t report).1, (run_loop qs t report).2)
    then_run qs (ps, t, inr failure) = (ps ++ qs, t, inr failure)

    then_run-cons :
        (p : Pass Name S T E) (qs : List (Pass Name S T E))
        (r : List (Pass Name S T E) × T × (PassReport Name ⊎ PassFailure Name E))
        → then_run qs (p ∷ r.0, r.1, r.2)
          ≡ (p ∷ (then_run qs r).0, (then_run qs r).1, (then_run qs r).2)
    then_run-cons p qs (ps, t, inl report) = refl
    then_run-cons p qs (ps, t, inr failure) = refl

    run_loop-append :
        (ps qs : List (Pass Name S T E)) (t : T) (report : PassReport Name)
        → run_loop (ps ++ qs) t report ≡ then_run qs (run_loop ps t report)
    run_loop-append [] qs t report = rw (run_loop-nil t report)
    run_loop-append (p ∷ ps) qs t report = elim (outcome-cases (p.apply p.state t)) [
      | inl (s', t', c, e) ↦
          let moved = record p { state = s' } in
          let grown = report ++ (record { id = id p; change = c }) ∷ [] in
          run_loop-ok p (ps ++ qs) t report s' t' c e
          ∙ ap (λ r. (moved ∷ r.0, r.1, r.2)) (run_loop-append ps qs t' grown)
          ∙ sym (then_run-cons moved qs (run_loop ps t' grown))
          ∙ sym (ap (then_run qs) (run_loop-ok p ps t report s' t' c e))
      | inr (s', t', error, e) ↦
          run_loop-failed p (ps ++ qs) t report s' t' error e
          ∙ sym (ap (then_run qs) (run_loop-failed p ps t report s' t' error e))
    ]

    -- Running a concatenation of two schedules is running the first and then, only if no pass of it
    -- failed, the second on the target that it left, with the report carried on.
    run-append :
        (ps qs : List (Pass Name S T E)) (t : T) → run (ps ++ qs) t ≡ then_run qs (run ps t)
    unfolding run
    run-append ps qs t = run_loop-append ps qs t []
