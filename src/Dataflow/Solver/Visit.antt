-- ===== src/Dataflow/Solver/Visit.antt =====
-- One step of the loop in crates/cfglib/src/dataflow/node_fixpoint.rs: the node that was popped
-- satisfies its equation, and each node whose equation it may break is queued.
use cfglib.Prelude.{
  elem, ℕ, ◌<◌, ◌≡◌, ◌≢◌, ◌⊎◌, refl, sym, subst, ◌∙◌, inl, inr, List, Bool, true, false, get_elem?,
  set, length, ◌==◌, if◌then◌else◌, Option, some, Bool-cases, ==→≡, ==→≢, lt→ltb, arith,
  get_elem?_lt, length-set, get_elem?-set_self, get_elem?-set_ne,
}
use cfglib.View.{View, against, IsView, neighbors_below, neighbors-against}
use cfglib.Dataflow.Worklist.{Worklist}
use cfglib.Dataflow.Worklist.Queue.{IsWorklist, waits, bound, insert_all-Inserts}
use cfglib.Dataflow.Solver.{
  traversal, TryNodeProblem, State, downstream, upstream, met_fact, record_output, visit,
}
use cfglib.Dataflow.Solver.Errors.{Answer, solved, failed, problem}
use cfglib.Dataflow.Solver.Meet.{
  Raises, transfer_fails, value, error, met_fact-same, met_fact-Settles,
}

pub ⊎-cases {ℓ κ} :
    {A : Type ℓ} {B : Type κ} (x : A ⊎ B) → ((a : A) × (x ≡ inl a)) ⊎ ((b : B) × (x ≡ inr b))
⊎-cases (inl a) = inl (a, refl)
⊎-cases (inr b) = inr (b, refl)

not_queued : (e w : Bool) → (if e then true else w) ≡ false → w ≡ false
not_queued true w h = absurd (cc (h))
not_queued false w h = h

module _ {ℓ κ} {F : Type ℓ} {E : Type κ} (view : View) (g : IsView view) (p : TryNodeProblem F E)
    (boundary : F) (entry : Option ℕ) where
  -- The equation of a node: its input is the meet of what flows in, and its output is what the
  -- transfer makes of it, up to the `==` of the facts.
  pub record Settled (input output : List F) (k : ℕ) : Type (ℓ ⊔ κ) where
    pub met : F
    pub made : F
    pub fact : F
    pub met_at : met_fact view p boundary entry k output ≡ solved met
    pub input_at : get_elem? input k ≡ some met
    pub transferred : p.transfer k met ≡ inr made
    pub output_at : get_elem? output k ≡ some fact
    pub agrees : (made ≡ fact) ⊎ (p.same made fact ≡ true)

  -- A node that was never queued.
  pub record Untouched (queued : ℕ → Bool) (input output : List F) (k : ℕ) : Type ℓ where
    pub unqueued : queued k ≡ false
    pub input_at : get_elem? input k ≡ some p.bottom
    pub output_at : get_elem? output k ≡ some p.bottom

  -- The state of the loop, when the nodes with `queued` were queued at its start.
  pub record Invariant (queued : ℕ → Bool) (s : State F) : Type (ℓ ⊔ κ) where
    pub inputs : length s.input ≡ view.node_bound
    pub outputs : length s.output ≡ view.node_bound
    pub valid : IsWorklist s.worklist
    pub bounded : bound s.worklist ≡ view.node_bound
    pub settled :
        (k : ℕ)
        → k < view.node_bound
        → waits s.worklist k ≡ false
        → Settled s.input s.output k ⊎ Untouched queued s.input s.output k

  -- The same, behind the pop of `node`.
  pub record Popped (queued : ℕ → Bool) (node : ℕ) (s : State F) : Type (ℓ ⊔ κ) where
    pub inputs : length s.input ≡ view.node_bound
    pub outputs : length s.output ≡ view.node_bound
    pub valid : IsWorklist s.worklist
    pub bounded : bound s.worklist ≡ view.node_bound
    pub inside : node < view.node_bound
    pub settled :
        (k : ℕ)
        → k < view.node_bound
        → node ≢ k
        → waits s.worklist k ≡ false
        → Settled s.input s.output k ⊎ Untouched queued s.input s.output k

  module _ (queued : ℕ → Bool) (node : ℕ) (s : State F) (v : Popped queued node s) where
    -- What flows into a node, when only the output of the popped node may change.
    flows :
        (output : List F) (k : ℕ)
        → ((from : ℕ) → node ≢ from → get_elem? output from ≡ get_elem? s.output from)
        → (elem node (upstream view p k) ≡ true → get_elem? output node ≡ get_elem? s.output node)
        → (from : ℕ) → elem from (upstream view p k) ≡ true
        → get_elem? output from ≡ get_elem? s.output from
    flows output k elsewhere here from e = elim (Bool-cases (node == from)) [
      | inl same ↦
          let z = ==→≡ node from same in
          subst (λ x. get_elem? output x ≡ get_elem? s.output x) z
            (here (subst (λ x. elem x (upstream view p k) ≡ true) (sym z) e))
      | inr apart ↦ elsewhere from (==→≢ node from apart)
    ]

    -- The writes of a visit keep the equation of another node that waits for nothing.
    kept :
        (met : F) (output : List F) (k : ℕ)
        → node ≢ k
        → ((from : ℕ) → node ≢ from → get_elem? output from ≡ get_elem? s.output from)
        → (elem node (upstream view p k) ≡ true → get_elem? output node ≡ get_elem? s.output node)
        → Settled s.input s.output k ⊎ Untouched queued s.input s.output k
        → Settled (set s.input node met) output k ⊎ Untouched queued (set s.input node met) output k
    kept met output k other elsewhere here (inl q) = inl (record {
      met = q.met;
      made = q.made;
      fact = q.fact;
      met_at =
          met_fact-same view p k boundary entry output s.output (flows output k elsewhere here)
          ∙ q.met_at;
      input_at = get_elem?-set_ne s.input node k met other ∙ q.input_at;
      transferred = q.transferred;
      output_at = elsewhere k other ∙ q.output_at;
      agrees = q.agrees;
    })
    kept met output k other elsewhere here (inr u) = inr (record {
      unqueued = u.unqueued;
      input_at = get_elem?-set_ne s.input node k met other ∙ u.input_at;
      output_at = elsewhere k other ∙ u.output_at;
    })

    module _ (met made fact : F) (output : List F) (worklist : Worklist)
        (met_at : met_fact view p boundary entry node s.output ≡ solved met)
        (transferred : p.transfer node met ≡ inr made)
        (output_at : get_elem? output node ≡ some fact)
        (agrees : (made ≡ fact) ⊎ (p.same made fact ≡ true)) where
      abbrev after : State F
      after = record s { input = set s.input node met; output = output; worklist = worklist }

      after-Invariant :
          length output ≡ view.node_bound
          → IsWorklist worklist
          → bound worklist ≡ view.node_bound
          → ((from : ℕ) → node ≢ from → get_elem? output from ≡ get_elem? s.output from)
          → ((k : ℕ)
              → waits worklist k ≡ false
              → elem node (upstream view p k) ≡ true
              → get_elem? output node ≡ get_elem? s.output node)
          → ((k : ℕ) → waits worklist k ≡ false → waits s.worklist k ≡ false)
          → Invariant queued after
      after-Invariant size valid bounded elsewhere here fewer = record {
        inputs = length-set s.input node met ∙ v.inputs;
        outputs = size;
        valid = valid;
        bounded = bounded;
        settled = λ k inside waiting. elim (Bool-cases (node == k)) [
          | inl q ↦
              let still =
                here node (subst (λ x. waits worklist x ≡ false) (sym (==→≡ node k q)) waiting) in
              inl (
                subst (λ x. Settled after.input after.output x) (==→≡ node k q)
                  (record {
                    met = met;
                    made = made;
                    fact = fact;
                    met_at =
                        met_fact-same view p node boundary entry output s.output
                          (flows output node elsewhere still)
                        ∙ met_at;
                    input_at =
                        get_elem?-set_self s.input node met (omega (arith, v.inputs, v.inside));
                    transferred = transferred;
                    output_at = output_at;
                    agrees = agrees;
                  }))
          | inr q ↦
              kept met output k (==→≢ node k q) elsewhere (here k waiting)
                (v.settled k inside (==→≢ node k q) (fewer k waiting))
        ];
      }

    -- What a visit gives: the next state, or an error of the consumer.
    pub data Visited (r : Answer E (State F)) : Type (ℓ ⊔ κ) where
      moved : (t : State F) → r ≡ solved t → Invariant queued t → t.steps ≡ s.steps → Visited r
      refused : (e : E) → Raises p.boundary p.meet p.transfer e → r ≡ failed (problem e) → Visited r

    module _ (met made before : F)
        (met_at : met_fact view p boundary entry node s.output ≡ solved met)
        (transferred : p.transfer node met ≡ inr made)
        (old : get_elem? s.output node ≡ some before) where
      abbrev written : State F
      written = record s { input = set s.input node met }

      unchanged-Visited :
          p.same made before ≡ true → Visited (record_output view p true node made written)
      unfolding record_output
      unchanged-Visited e =
          moved written refl
            (after-Invariant met made before s.output s.worklist met_at transferred old (inr e)
              v.outputs v.valid v.bounded (λ from apart. refl) (λ k w h. refl) (λ k w. w))
            refl

      changed-Visited : Visited (record_output view p false node made written)
      unfolding record_output
      changed-Visited =
          let inside : node < length s.output = omega (arith, v.outputs, v.inside) in
          let (out, run, valid, same, members) =
            insert_all-Inserts s.worklist (downstream view p node) v.valid (λ k i at.
              subst (λ n. i < n) (sym v.bounded)
                (neighbors_below view g (traversal p.direction) node k i at)) in
          moved (record written { output = set s.output node made; worklist = out }) (rw run)
            (after-Invariant met made made (set s.output node made) out met_at transferred
              (get_elem?-set_self s.output node made inside) (inl refl)
              (length-set s.output node made ∙ v.outputs) valid (same ∙ v.bounded)
              (λ from apart. get_elem?-set_ne s.output node from made apart)
              (λ k w h. absurd (
                cc (
                  sym (members k) ∙ w,
                  neighbors-against view g (traversal p.direction) node k,
                  h,
                )))
              (λ k w.
                not_queued (elem k (downstream view p node)) (waits s.worklist k)
                  (sym (members k) ∙ w)))
            refl

    pub visit-Visited : Visited (visit view p boundary entry node s)
    unfolding visit
    visit-Visited =
        elim (met_fact-Settles view p node boundary entry s.output (λ k from at.
          subst (λ n. from < n) (sym v.outputs)
            (neighbors_below view g (against (traversal p.direction)) node k from at))) [
              | error e why run ↦ refused e why (rw run)
              | value met run ↦ elim (⊎-cases (p.transfer node met)) [
                | inl (e, fails) ↦ refused e (transfer_fails node met fails) (rw (run, fails))
                | inr (made, gives) ↦
                    let (before, old) =
                      get_elem?_lt s.output node (omega (arith, v.outputs, v.inside)) in
                    let inside = lt→ltb node (length s.input) (omega (arith, v.inputs, v.inside)) in
                    elim (Bool-cases (p.same made before)) [
                      | inl q ↦
                          rw (run, gives, inside, old, q)
                            (unchanged-Visited met made before run gives old q)
                      | inr q ↦
                          rw (run, gives, inside, old, q)
                            (changed-Visited met made before run gives old)
                    ]
              ]
            ]
