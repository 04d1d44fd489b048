-- ===== src/Builder/Streams.antt =====
-- `build` of the structured builder, crates/cfglib/src/builder.rs: which streams it accepts, and what
-- graph it returns.
use cfglib.Prelude.{
  ℕ, ◌+◌, ◌*◌, ◌≤◌, ◌≡◌, inl, inr, refl, sym, ap, ◌∙◌, List, [], ◌∷◌, ◌++◌, map, length, Option,
  none, some, arith, ltb, ltb→lt, Bool-cases, List-cases, take_all, length-map,
}
use cfglib.Store.Chains.{max_slots}
use cfglib.Store.Graph.{node_bound, contains_node, node_is_live}
use cfglib.Store.Contents.{payloads, payloads_size}
use cfglib.Cfg.{Cfg}
use cfglib.Cfg.Grows.{IsWhole, program, new-IsWhole}
use cfglib.Builder.{BuildState, start}
use cfglib.Builder.Flow.{FlowEffect}
use cfglib.Builder.Outcome.{BuildError, Attempt, ok, err, ◌>>=◌, call}
use cfglib.Builder.Scopes.{Scope}
use cfglib.Builder.Grammar.{Verdict, accept, reject, frame, steps, closed, check}
use cfglib.Builder.Build.{finish, build, process_all, trim_trailing_empty}
use cfglib.Builder.Accepts.{kept, Reached, process_all-Reached}
use cfglib.Builder.Trim.{IsTrimming, IsBuilt, IsBuilt-of, trim_trailing_empty-Held}

module _ {ℓ ω} {W : Type ω} {I : Type ℓ} where
  -- A graph with these instructions and with `most` blocks at most, or the fault of the stream.
  abbrev pub Builds : List I → ℕ → Attempt (Cfg W I (Unit {0})) → Option BuildError → Type (ℓ ⊔ ω)
  Builds is most r none = (cfg : Cfg W I (Unit {0})) × (r ≡ ok cfg) × IsBuilt cfg is most
  Builds is most r (some e) = r ≡ err e

  IsTrimming-of :
      (cfg : Cfg W I (Unit {0})) (is : List I)
      → IsWhole cfg
      → program (payloads cfg.graph) ≡ is
      → IsTrimming cfg (node_bound cfg.graph) is
  unfolding contains_node node_is_live
  IsTrimming-of cfg is w code = record {
    store = w.store;
    ends = w.ends;
    live = λ v. elim (Bool-cases (ltb v (node_bound cfg.graph))) [
      | inl inside ↦ w.full v (ltb→lt _ _ inside) ∙ sym inside
      | inr outside ↦ rw outside refl
    ];
    fits = omega arith;
    entered = w.entered;
    code =
        ap program (take_all (payloads cfg.graph) _ (omega (arith, payloads_size cfg.graph)))
        ∙ code;
  }

  finish-unclosed :
      (s : BuildState W I) (scope : Scope) (scopes : List Scope)
      → s.scopes ≡ scope ∷ scopes
      → finish s ≡ err (BuildError.unclosed_scopes (length (scope ∷ scopes)))
  unfolding finish
  finish-unclosed s scope scopes e = rw (e, finish) refl

  finish-closed : (s : BuildState W I) → s.scopes ≡ [] → finish s ≡ call (trim_trailing_empty s.cfg)
  unfolding finish
  finish-closed s e = rw (e, finish) refl

  finish-Builds :
      (s : BuildState W I) (is : List I) (n : ℕ) (r : Attempt (BuildState W I)) (v : Verdict)
      → s.cfg.entry ≡ 0
      → node_bound s.cfg.graph ≡ 1
      → program (payloads s.cfg.graph) ≡ []
      → Reached s is n r v
      → Builds is (2 * n + 1) (r >>= finish) (closed v)
  finish-Builds s is n r (reject e) entry one empty run = rw run refl
  finish-Builds s is n r (accept (f ∷ fs)) entry one empty (s', run, a) =
      elim (List-cases s'.scopes) [
        | inl none_ ↦ absurd (cc (a.shape, ap (map frame) none_))
        | inr (scope, scopes, open_) ↦
            let size : length (scope ∷ scopes) ≡ length (f ∷ fs) =
              sym (ap length open_) ∙ sym (length-map frame s'.scopes) ∙ ap length a.shape in
            rw run (
              finish-unclosed s' scope scopes open_
              ∙ ap (λ m. err (BuildError.unclosed_scopes m)) size)
      ]
  finish-Builds s is n r (accept []) entry one empty (s', run, a) =
      let scopes : s'.scopes ≡ [] = elim (List-cases s'.scopes) [
        | inl none_ ↦ none_
        | inr (scope, scopes, open_) ↦ absurd (cc (a.shape, ap (map frame) open_))
      ] in
      let code = a.code ∙ ap (λ js. js ++ is) empty in
      let (cfg, last, done, t, held, same, fewer) =
        trim_trailing_empty-Held s'.cfg (node_bound s'.cfg.graph) is
          (IsTrimming-of s'.cfg is a.building.whole code) in
      (
        cfg,
        rw run (finish-closed s' scopes ∙ ap call done),
        IsBuilt-of cfg last (2 * n + 1) is t held (same ∙ a.entry ∙ entry)
            (omega (arith, fewer, a.blocks, one)),
      )

-- While the blocks and edges that a stream may need are addressable, `build` panics on no stream:
-- on one with a fault it returns the error of the first; on any other it returns a well-formed
-- graph with the ends of all live edges live, entered at block 0, with live blocks `0..=last`, two
-- for each instruction and one more at most, which hold, in order, exactly the instructions that
-- do not close a scope, and whose last one is the entry, not empty, or the target of an edge.
pub build-Builds {ℓ ω} :
    (W : Type ω) {I : Type ℓ} (flow_effect : I → FlowEffect) (insts : List I)
    → 2 * length insts + 1 ≤ max_slots
    → 3 * length insts ≤ max_slots
    → Builds {W = W}
        (kept flow_effect insts)
        (2 * length insts + 1)
        (build flow_effect insts)
        (check (map flow_effect insts))
unfolding build start
build-Builds W {I} flow_effect insts blocks edges =
    let (cfg, run, whole, one, no_edges, entry, empty) = new-IsWhole {W = W} {I = I} in
    let s : BuildState W I = record { cfg = cfg; current = cfg.entry; scopes = [] } in
    rw run (
      finish-Builds s (kept flow_effect insts) (length insts) (process_all flow_effect s insts)
        (steps (map flow_effect insts) []) entry one empty
        (process_all-Reached flow_effect s insts
          (record { whole = whole; last = omega (arith, one, entry); scopes = tt })
          (omega (arith, one)) (omega (arith, no_edges))))
