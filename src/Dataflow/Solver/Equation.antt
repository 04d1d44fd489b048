-- ===== src/Dataflow/Solver/Equation.antt =====
-- The equation of a node for the solvers of crates/cfglib/src/dataflow/node_fixpoint.rs and
-- fixpoint.rs beside it, stated with the consumer's functions and the axes of the graph only, and the
-- meet that the solver computes, which obeys it.
use cfglib.Prelude.{
  ℕ, ◌≡◌, ◌⊎◌, ◌↔◌, subst, inl, inr, refl, List, [], ◌∷◌, Bool, true, false, get_elem?, Option,
  none, some, read, Option-cases, Bool-cases, ◌==◌, ==→≡, ≡→==,
}
use cfglib.View.{View, IsView, neighbors, against}
use cfglib.Dataflow.Solver.{
  Direction, forward, backward, traversal, program_order, TryNodeProblem, Facts, State, upstream,
  meet_one, meet_all, or_boundary, at_entry, met_fact, facts_of,
}
use cfglib.Dataflow.Solver.Errors.{Answer, solved, lift}
use cfglib.Dataflow.Solver.Visit.{Settled, Untouched, ⊎-cases}
use cfglib.Dataflow.Solver.Limit.{bind-solved}

-- A flow problem as relations: the meet of two facts at a node, what the transfer makes of a fact at
-- a node, and the nodes where the boundary fact enters.
pub record Flow {ℓ κ} (F : Type ℓ) : Type (ℓ ⊔ (κ + 1)) where
  pub direction : Direction
  pub bottom : F
  pub meets : ℕ → F → F → F → Type κ
  pub transfers : ℕ → F → F → Type κ
  pub same : F → F → Bool
  pub entry : ℕ → Type 0

-- The nodes that facts flow from into a node.
abbrev pub sources : Direction → View → ℕ → List ℕ
sources forward view node = view.predecessors node
sources backward view node = view.successors node

module _ {ℓ} {F : Type ℓ} where
  -- The facts on the way into the nodes.
  abbrev pub entering : Direction → Facts F → List F
  entering forward facts = facts.input
  entering backward facts = facts.output

  -- The facts on the way out of the nodes.
  abbrev pub leaving : Direction → Facts F → List F
  leaving forward facts = facts.output
  leaving backward facts = facts.input

  -- The facts of the nodes of a list, met one after the other from the left with what there was
  -- before, if anything.
  pub data Gathers {κ} (meets : F → F → F → Type κ) (output : List F)
      : Option F → List ℕ → Option F → Type (ℓ ⊔ κ) where
    done : (met : Option F) → Gathers meets output met [] met
    first :
        (from : ℕ) (froms : List ℕ) (fact : F) (r : Option F)
        → get_elem? output from ≡ some fact
        → Gathers meets output (some fact) froms r
        → Gathers meets output none (from ∷ froms) r
    next :
        (current fact both : F) (from : ℕ) (froms : List ℕ) (r : Option F)
        → get_elem? output from ≡ some fact
        → meets current fact both
        → Gathers meets output (some both) froms r
        → Gathers meets output (some current) (from ∷ froms) r

  -- A node satisfies its equation: its fact on the way in is the meet of the facts on the way out of
  -- its sources, with the boundary fact first if the node is an entry, and the boundary fact if there
  -- is nothing to meet; its fact on the way out is what the transfer makes of it, up to the `==` of
  -- the facts.
  pub record Balances {κ} (view : View) (w : Flow {ℓ, κ} F) (boundary : F) (facts : Facts F) (k : ℕ)
      : Type (ℓ ⊔ κ) where
    pub start : Option F
    pub begun : (w.entry k × (start ≡ some boundary)) ⊎ (¬ (w.entry k) × (start ≡ none))
    pub gathered : Option F
    pub gathers :
        Gathers (w.meets k) (leaving w.direction facts) start (sources w.direction view k) gathered
    pub met : F
    pub closed : (gathered ≡ some met) ⊎ ((gathered ≡ none) × (met ≡ boundary))
    pub input_at : get_elem? (entering w.direction facts) k ≡ some met
    pub made : F
    pub transferred : w.transfers k met made
    pub fact : F
    pub output_at : get_elem? (leaving w.direction facts) k ≡ some fact
    pub agrees : (made ≡ fact) ⊎ (w.same made fact ≡ true)

  -- A node that was not queued at the start and still has the bottom fact on both sides.
  pub record Idle {κ} (w : Flow {ℓ, κ} F) (queued : ℕ → Bool) (facts : Facts F) (k : ℕ)
      : Type ℓ where
    pub unqueued : queued k ≡ false
    pub input_at : get_elem? facts.input k ≡ some w.bottom
    pub output_at : get_elem? facts.output k ≡ some w.bottom

  module _ {κ} (meets meets' : F → F → F → Type κ)
      (implies : (a b c : F) → meets a b c → meets' a b c) (output : List F) where
    Gathers-map :
        (met : Option F) (froms : List ℕ) (r : Option F)
        → Gathers meets output met froms r
        → Gathers meets' output met froms r
    Gathers-map met [] r (done _) = done met
    Gathers-map none (from ∷ froms) r (first _ _ fact _ at g) =
        first from froms fact r at (Gathers-map (some fact) froms r g)
    Gathers-map (some current) (from ∷ froms) r (next _ fact both _ _ _ at m g) =
        next current fact both from froms r at (implies current fact both m)
          (Gathers-map (some both) froms r g)

  pub Balances-map {κ} :
      (w : Flow {ℓ, κ} F) (meets : ℕ → F → F → F → Type κ) (transfers : ℕ → F → F → Type κ)
      → ((k : ℕ) (a b c : F) → w.meets k a b c → meets k a b c)
      → ((k : ℕ) (a b : F) → w.transfers k a b → transfers k a b)
      → (view : View) (boundary : F) (facts : Facts F) (k : ℕ) → Balances view w boundary facts k
      → Balances view (record w { meets = meets; transfers = transfers }) boundary facts k
  Balances-map w meets transfers m t view boundary facts k b = record {
    start = b.start;
    begun = b.begun;
    gathered = b.gathered;
    gathers =
        Gathers-map (w.meets k) (meets k) (m k) (leaving w.direction facts) b.start
          (sources w.direction view k) b.gathered b.gathers;
    met = b.met;
    closed = b.closed;
    input_at = b.input_at;
    made = b.made;
    transferred = t k b.met b.made b.transferred;
    fact = b.fact;
    output_at = b.output_at;
    agrees = b.agrees;
  }

  both :
      (d : Direction) (facts : Facts F) (k : ℕ) (fact : F)
      → get_elem? (entering d facts) k ≡ some fact
      → get_elem? (leaving d facts) k ≡ some fact
      → (get_elem? facts.input k ≡ some fact) × (get_elem? facts.output k ≡ some fact)
  both forward facts k fact i o = (i, o)
  both backward facts k fact i o = (o, i)

neighbors-sources :
    (d : Direction) (view : View) (k : ℕ)
    → neighbors (against (traversal d)) view k ≡ sources d view k
unfolding neighbors against traversal
neighbors-sources forward view k = refl
neighbors-sources backward view k = refl

module _ {ℓ κ} {F : Type ℓ} {E : Type κ} (view : View) (p : TryNodeProblem F E) where
  pub entering-facts_of : (t : State F) → entering p.direction (facts_of view p t) ≡ t.input
  unfolding facts_of program_order
  entering-facts_of t = go p.direction
    where
      go :
          (d : Direction)
          → entering d (record {
            input = (program_order d t.input t.output).0;
            output = (program_order d t.input t.output).1;
            steps = t.steps;
          })
            ≡ t.input
      go forward = refl
      go backward = refl

  pub leaving-facts_of : (t : State F) → leaving p.direction (facts_of view p t) ≡ t.output
  unfolding facts_of program_order
  leaving-facts_of t = go p.direction
    where
      go :
          (d : Direction)
          → leaving d (record {
            input = (program_order d t.input t.output).0;
            output = (program_order d t.input t.output).1;
            steps = t.steps;
          })
            ≡ t.output
      go forward = refl
      go backward = refl

  -- The problem of the consumer as relations, with these nodes as its entries.
  abbrev pub flow : (ℕ → Type 0) → Flow {ℓ, ℓ ⊔ κ} F
  flow entry = record {
    direction = p.direction;
    bottom = p.bottom;
    meets = λ k a b c. p.meet k a b ≡ inr c;
    transfers = λ k met made. p.transfer k met ≡ inr made;
    same = p.same;
    entry = entry;
  }

  abbrev found : F → Answer E F
  found fact = solved fact

  read-get_elem? :
      (output : List F) (from : ℕ) (fact : F)
      → lift (read output from) ≡ found fact
      → get_elem? output from ≡ some fact
  read-get_elem? output from fact e = elim (Option-cases (get_elem? output from)) [
    | inl z ↦ absurd (cc (rw z at e))
    | inr (other, z) ↦ let q : found other ≡ found fact = rw z at e in cc (z, q)
  ]

  meet_one-meets :
      (node : ℕ) (current fact both : F)
      → meet_one view p node (some current) fact ≡ solved both
      → p.meet node current fact ≡ inr both
  unfolding meet_one
  meet_one-meets node current fact both e = elim (⊎-cases (p.meet node current fact)) [
    | inl (error, z) ↦ absurd (cc (rw z at e))
    | inr (gives, z) ↦ let q : found gives ≡ found both = rw z at e in cc (z, q)
  ]

  meet_all-Gathers :
      (node : ℕ) (output : List F) (met : Option F) (froms : List ℕ) (r : Option F)
      → meet_all view p node output met froms ≡ solved r
      → Gathers (λ a b c. p.meet node a b ≡ inr c) output met froms r
  unfolding meet_all meet_one
  meet_all-Gathers node output met [] r e =
      let same : met ≡ r = cc (e) in
      subst (Gathers (λ a b c. p.meet node a b ≡ inr c) output met []) same (done met)
  meet_all-Gathers node output none (from ∷ froms) r e =
      let (fact, here, more) = bind-solved (lift (read output from)) _ r e in
      first from froms fact r (read-get_elem? output from fact here)
        (meet_all-Gathers node output (some fact) froms r more)
  meet_all-Gathers node output (some current) (from ∷ froms) r e =
      let (fact, here, more) = bind-solved (lift (read output from)) _ r e in
      let (both, meets, rest) =
        bind-solved (meet_one view p node (some current) fact)
          (λ both. meet_all view p node output (some both) froms) r more in
      next current fact both from froms r (read-get_elem? output from fact here)
        (meet_one-meets node current fact both meets)
        (meet_all-Gathers node output (some both) froms r rest)

  at_entry-cases :
      (boundary : F) (entry : Option ℕ) (k : ℕ)
      → ((entry ≡ some k) × (at_entry view p boundary entry k ≡ some boundary))
        ⊎ (¬ (entry ≡ some k) × (at_entry view p boundary entry k ≡ none))
  unfolding at_entry
  at_entry-cases boundary none k = inr ((λ q. absurd (cc (q))), refl)
  at_entry-cases boundary (some entry) k = elim (Bool-cases (entry == k)) [
    | inl q ↦ inl (rw (==→≡ entry k q) refl, rw q refl)
    | inr q ↦
        inr (λ e. let same : entry ≡ k = cc (e) in absurd (cc (≡→== entry k same, q)), rw q refl)
  ]

  or_boundary-cases :
      (boundary met : F) (gathered : Option F)
      → found (or_boundary view p boundary gathered) ≡ found met
      → (gathered ≡ some met) ⊎ ((gathered ≡ none) × (met ≡ boundary))
  unfolding or_boundary
  or_boundary-cases boundary met none e = inr (refl, cc (e))
  or_boundary-cases boundary met (some got) e = inl (cc (e))

  module _ (g : IsView view) (boundary : F) (start : Option ℕ) (entry : ℕ → Type 0)
      (enters : (k : ℕ) → (start ≡ some k) ↔ entry k) where
    begun-at_entry :
        (k : ℕ)
        → (entry k × (at_entry view p boundary start k ≡ some boundary))
          ⊎ (¬ (entry k) × (at_entry view p boundary start k ≡ none))
    begun-at_entry k = elim (at_entry-cases boundary start k) [
      | inl (here, e) ↦ inl ((enters k).0 here, e)
      | inr (not_here, e) ↦ inr ((λ here. not_here ((enters k).1 here)), e)
    ]

    -- The facts that the solver has for a node it settled satisfy the equation of the node.
    pub Settled-Balances :
        (facts : Facts F) (k : ℕ)
        → Settled view g p boundary start (entering p.direction facts) (leaving p.direction facts) k
        → Balances view (flow entry) boundary facts k
    unfolding met_fact
    Settled-Balances facts k q =
        let (gathered, run, last) =
          bind-solved
            (meet_all view p k (leaving p.direction facts) (at_entry view p boundary start k)
              (upstream view p k))
            (λ met. solved (or_boundary view p boundary met)) q.met q.met_at in
        record {
          start = at_entry view p boundary start k;
          begun = begun-at_entry k;
          gathered = gathered;
          gathers =
              subst
                (λ froms.
                  Gathers (λ a b c. p.meet k a b ≡ inr c) (leaving p.direction facts)
                    (at_entry view p boundary start k) froms gathered)
                (neighbors-sources p.direction view k)
                (meet_all-Gathers k (leaving p.direction facts) (at_entry view p boundary start k)
                  (upstream view p k) gathered run);
          met = q.met;
          closed = or_boundary-cases boundary q.met gathered last;
          input_at = q.input_at;
          made = q.made;
          transferred = q.transferred;
          fact = q.fact;
          output_at = q.output_at;
          agrees = q.agrees;
        }

    pub Untouched-Idle :
        (queued : ℕ → Bool) (facts : Facts F) (k : ℕ)
        → Untouched view g p boundary start queued
            (entering p.direction facts)
            (leaving p.direction facts)
            k
        → Idle (flow entry) queued facts k
    Untouched-Idle queued facts k u =
        let (i, o) = both p.direction facts k p.bottom u.input_at u.output_at in
        record { unqueued = u.unqueued; input_at = i; output_at = o }
