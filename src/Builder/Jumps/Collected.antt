-- ===== src/Builder/Jumps/Collected.antt =====
-- The second loop of `resolve_jump_edges`, crates/cfglib/src/builder.rs: the jumps that wait for an
-- edge, and those whose target no label names.
use cfglib.Prelude.{
  ℕ, zero, suc, ◌+◌, ◌<◌, ◌≤◌, ◌≡◌, inl, inr, refl, sym, ◌∙◌, ap, subst, List, [], ◌∷◌, Bool, true,
  Bool-cases, Option-cases, none, some, ok, length, In, In-later, In-cases, range_from, arith, ◌==◌,
  ==→≡, ==→≢,
}
use cfglib.Store.Graph.{node_bound}
use cfglib.Store.Walk.Steps.{select}
use cfglib.Store.Found.{node-found}
use cfglib.Cfg
use cfglib.Cfg.{Cfg}
use cfglib.Cfg.Edge.{EdgeKind}
use cfglib.Cfg.Block.{BasicBlock}
use cfglib.Builder.Jumps.{JumpTargets, Jump, jump_of, lookup, place, collect_jumps}

module _ {ℓ τ κ ω} {I : Type ℓ} {T : Type τ} {W : Type ω} {E : Type κ} (targets : JumpTargets I T)
    (cfg : Cfg W I E) (p : ℕ → Bool) where
  -- The block `v`, among those of `p`, ends in a jump of this kind to this token.
  abbrev pub Ends : ℕ → EdgeKind → T → Type (ℓ ⊔ τ)
  Ends v kind token =
      (p v ≡ true)
      × (b : BasicBlock I) × (Cfg.block cfg v ≡ ok b)
      × (jump_of targets b.instructions ≡ some (kind, token))

  module _ (labels : List (T × ℕ)) where
    -- What the two lists hold of the blocks from `s` on.
    abbrev pub Waits : ℕ → Jump → Type (ℓ ⊔ τ)
    Waits s jump =
        (s ≤ jump.source)
        × (token : T) × Ends jump.source jump.kind token
        × (lookup targets token labels ≡ some jump.target)

    abbrev pub Misses : ℕ → ℕ × T → Type (ℓ ⊔ τ)
    Misses s (v, token) =
        (s ≤ v) × (kind : EdgeKind) × Ends v kind token × (lookup targets token labels ≡ none)

    Waits-earlier : (s : ℕ) (jump : Jump) → Waits (suc s) jump → Waits s jump
    Waits-earlier s jump (le, token, ends, to) = (omega (arith, le), token, ends, to)

    Misses-earlier : (s : ℕ) (at : ℕ × T) → Misses (suc s) at → Misses s at
    Misses-earlier s at (le, kind, ends, to) = (omega (arith, le), kind, ends, to)

    pub record IsCollected (s n : ℕ) (pending : List Jump) (unresolved : List (ℕ × T))
        : Type (ℓ ⊔ τ) where
      pub waits : (jump : Jump) → In jump pending → Waits s jump
      pub waiting : (jump : Jump) → jump.source < s + n → Waits s jump → In jump pending
      pub misses : (at : ℕ × T) → In at unresolved → Misses s at
      pub missing : (at : ℕ × T) → at.0 < s + n → Misses s at → In at unresolved
      pub few : length pending ≤ n

    -- Nothing to place at `s`.
    skipped :
        (s n : ℕ) (pending : List Jump) (unresolved : List (ℕ × T))
        → ((kind : EdgeKind) (token : T) → ¬ (Ends s kind token))
        → IsCollected (suc s) n pending unresolved
        → IsCollected s (suc n) pending unresolved
    skipped s n pending unresolved no_jump c = record {
      waits = λ jump h. Waits-earlier s jump (c.waits jump h);
      waiting = λ jump lt (le, token, ends, to). elim (Bool-cases (jump.source == s)) [
        | inl same ↦ absurd (
            no_jump jump.kind token
              (subst (λ v. Ends v jump.kind token) (==→≡ jump.source s same) ends))
        | inr other ↦
            c.waiting jump (omega (arith, lt))
              (omega (arith, le, ==→≢ jump.source s other), token, ends, to)
      ];
      misses = λ at h. Misses-earlier s at (c.misses at h);
      missing = λ at lt (le, kind, ends, to). elim (Bool-cases (at.0 == s)) [
        | inl same ↦
            absurd (no_jump kind at.1 (subst (λ v. Ends v kind at.1) (==→≡ at.0 s same) ends))
        | inr other ↦
            c.missing at (omega (arith, lt)) (omega (arith, le, ==→≢ at.0 s other), kind, ends, to)
      ];
      few = omega (arith, c.few);
    }

    Ends-unique :
        (v : ℕ) (b : BasicBlock I) (kind kind' : EdgeKind) (token token' : T)
        → Cfg.block cfg v ≡ ok b
        → jump_of targets b.instructions ≡ some (kind, token)
        → Ends v kind' token'
        → (kind ≡ kind') × (token ≡ token')
    Ends-unique v b kind kind' token token' found jumps (_, b', found', jumps') =
        let same : b ≡ b' = cc (found, found') in
        let found_pair : EdgeKind × T = (kind, token) in
        let other_pair : EdgeKind × T = (kind', token') in
        let q : some found_pair ≡ some other_pair =
          sym jumps ∙ ap (λ c. jump_of targets c.instructions) same ∙ jumps' in
        let pair : found_pair ≡ other_pair = cc (q) in (ap (λ x. x.0) pair, ap (λ x. x.1) pair)

    same_jump :
        (jump : Jump) (v u : ℕ) (kind : EdgeKind)
        → v ≡ jump.source
        → u ≡ jump.target
        → kind ≡ jump.kind
        → record { source = v; target = u; kind = kind } ≡ jump
    same_jump jump v u kind e f h = cc (e, f, h)

    -- The jump at `s` has a label.
    targeted :
        (s n u : ℕ) (b : BasicBlock I) (kind : EdgeKind) (token : T) (pending : List Jump)
        (unresolved : List (ℕ × T))
        → p s ≡ true
        → Cfg.block cfg s ≡ ok b
        → jump_of targets b.instructions ≡ some (kind, token)
        → lookup targets token labels ≡ some u
        → IsCollected (suc s) n pending unresolved
        → IsCollected s
            (suc n)
            (record { source = s; target = u; kind = kind } ∷ pending)
            unresolved
    targeted s n u b kind token pending unresolved alive found jumps to c =
        let new : Jump = record { source = s; target = u; kind = kind } in
        record {
          waits = λ jump h. elim (In-cases jump new pending h) [
            | inl same ↦ subst (Waits s) same (omega arith, token, (alive, b, found, jumps), to)
            | inr later ↦ Waits-earlier s jump (c.waits jump later)
          ];
          waiting = λ jump lt (le, token', ends, to'). elim (Bool-cases (jump.source == s)) [
            | inl here ↦
                let at = ==→≡ jump.source s here in
                let (k, t) =
                  Ends-unique s b kind jump.kind token token' found jumps
                    (subst (λ v. Ends v jump.kind token') at ends) in
                let q : some u ≡ some jump.target =
                  sym to ∙ ap (λ x. lookup targets x labels) t ∙ to' in
                (0, ap some (same_jump jump s u kind (sym at) (cc (q)) k))
            | inr other ↦ In-later jump new pending (
                c.waiting jump (omega (arith, lt))
                  (omega (arith, le, ==→≢ jump.source s other), token', ends, to'))
          ];
          misses = λ at h. Misses-earlier s at (c.misses at h);
          missing = λ at lt (le, kind', ends, to'). elim (Bool-cases (at.0 == s)) [
            | inl same ↦
                let (_, t) =
                  Ends-unique s b kind kind' token at.1 found jumps
                    (subst (λ v. Ends v kind' at.1) (==→≡ at.0 s same) ends) in
                absurd (cc (to, to', ap (λ x. lookup targets x labels) t))
            | inr other ↦
                c.missing at (omega (arith, lt))
                  (omega (arith, le, ==→≢ at.0 s other), kind', ends, to')
          ];
          few = omega (arith, c.few);
        }

    -- The jump at `s` has no label.
    untargeted :
        (s n : ℕ) (b : BasicBlock I) (kind : EdgeKind) (token : T) (pending : List Jump)
        (unresolved : List (ℕ × T))
        → p s ≡ true
        → Cfg.block cfg s ≡ ok b
        → jump_of targets b.instructions ≡ some (kind, token)
        → lookup targets token labels ≡ none
        → IsCollected (suc s) n pending unresolved
        → IsCollected s (suc n) pending ((s, token) ∷ unresolved)
    untargeted s n b kind token pending unresolved alive found jumps to c = record {
      waits = λ jump h. Waits-earlier s jump (c.waits jump h);
      waiting = λ jump lt (le, token', ends, to'). elim (Bool-cases (jump.source == s)) [
        | inl here ↦
            let (_, t) =
              Ends-unique s b kind jump.kind token token' found jumps
                (subst (λ v. Ends v jump.kind token') (==→≡ jump.source s here) ends) in
            absurd (cc (to, to', ap (λ x. lookup targets x labels) t))
        | inr other ↦
            c.waiting jump (omega (arith, lt))
              (omega (arith, le, ==→≢ jump.source s other), token', ends, to')
      ];
      misses = λ at h. elim (In-cases at (s, token) unresolved h) [
        | inl same ↦ subst (Misses s) same (omega arith, kind, (alive, b, found, jumps), to)
        | inr later ↦ Misses-earlier s at (c.misses at later)
      ];
      missing = λ at lt (le, kind', ends, to'). elim (Bool-cases (at.0 == s)) [
        | inl same ↦
            let q = ==→≡ at.0 s same in
            let (_, t) =
              Ends-unique s b kind kind' token at.1 found jumps
                (subst (λ v. Ends v kind' at.1) q ends) in
            let here : ℕ × T = (s, token) in let both : here ≡ at = cc (q, t) in (0, ap some both)
        | inr other ↦
            In-later at (s, token) unresolved
              (c.missing at (omega (arith, lt))
                (omega (arith, le, ==→≢ at.0 s other), kind', ends, to'))
      ];
      few = omega (arith, c.few);
    }

    pub collect_jumps-IsCollected :
        (s n : ℕ)
        → s + n ≤ node_bound cfg.graph
        → (pending : List Jump) × (unresolved : List (ℕ × T)) × (collect_jumps targets cfg labels
              (select p (range_from s n))
            ≡ ok (pending, unresolved))
          × IsCollected s n pending unresolved
    unfolding collect_jumps Cfg.block place
    collect_jumps-IsCollected s zero h = (
      [],
      [],
      refl,
      record {
        waits = λ jump h. absurd (cc (h.1));
        waiting = λ jump lt w. absurd (omega (arith, lt, w.0));
        misses = λ at h. absurd (cc (h.1));
        missing = λ at lt w. absurd (omega (arith, lt, w.0));
        few = omega arith;
      },
    )
    collect_jumps-IsCollected s (suc n) h =
        let (pending, unresolved, run, c) =
          collect_jumps-IsCollected (suc s) n (omega (arith, h)) in
        elim (Bool-cases (p s)) [
          | inr dead ↦ (
            pending,
            unresolved,
            rw dead run,
            skipped s n pending unresolved (λ kind token ends. absurd (cc (ends.0, dead))) c,
          )
          | inl alive ↦
              let (b, found, _) = node-found cfg.graph s (omega (arith, h)) in
              elim (Option-cases (jump_of targets b.instructions)) [
                | inl no_jump ↦ (
                  pending,
                  unresolved,
                  rw (alive, found, run, no_jump) refl,
                  skipped s n pending unresolved
                      (λ kind token (_, b', found', jumps).
                        let same : b ≡ b' = cc (found, found') in
                        absurd (cc (no_jump, jumps, ap (λ x. jump_of targets x.instructions) same)))
                      c,
                )
                | inr ((kind, token), jumps) ↦ elim (Option-cases (lookup targets token labels)) [
                  | inl missed ↦ (
                    pending,
                    (s, token) ∷ unresolved,
                    rw (alive, found, run, jumps, missed, place) refl,
                    untargeted s n b kind token pending unresolved alive found jumps missed c,
                  )
                  | inr (u, to) ↦ (
                    record { source = s; target = u; kind = kind } ∷ pending,
                    unresolved,
                    rw (alive, found, run, jumps, to, place) refl,
                    targeted s n u b kind token pending unresolved alive found jumps to c,
                  )
                ]
              ]
        ]
