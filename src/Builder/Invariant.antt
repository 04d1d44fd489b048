-- ===== src/Builder/Invariant.antt =====
-- What holds of the state of the structured builder, crates/cfglib/src/builder.rs, between two
-- instructions, and what one instruction may do to it.
use cfglib.Prelude.{ℕ, suc, ◌+◌, ◌<◌, ◌≤◌, ◌≡◌, refl, List, [], ◌∷◌, ◌++◌, length, map, arith}
use cfglib.Store.Chains.{max_slots}
use cfglib.Store.Graph.{node_bound, edge_bound}
use cfglib.Store.Contents.{payloads}
use cfglib.Cfg.{Cfg}
use cfglib.Cfg.Grows.{IsWhole, Adds, program}
use cfglib.Builder.{BuildState}
use cfglib.Builder.Scopes.{Scope}
use cfglib.Builder.Outcome.{Attempt, ok, err}
use cfglib.Builder.Grammar.{Frame, frame, Verdict, accept, reject}

abbrev pub Below : ℕ → List ℕ → Type 0
Below n [] = Unit {0}
Below n (x ∷ xs) = (x < n) × Below n xs

-- The blocks that a scope names are blocks of the graph.
abbrev pub ScopeBelow : ℕ → Scope → Type 0
ScopeBelow n (Scope.conditional pre arms) = (pre < n) × Below n arms
ScopeBelow n (Scope.loop header breaks) = (header < n) × Below n breaks
ScopeBelow n (Scope.switch pre arms breaks) = (pre < n) × Below n arms × Below n breaks

abbrev pub ScopesBelow : ℕ → List Scope → Type 0
ScopesBelow n [] = Unit {0}
ScopesBelow n (s ∷ scopes) = ScopeBelow n s × ScopesBelow n scopes

-- The blocks that wait for an edge.
abbrev pub waiting : Scope → ℕ
waiting (Scope.conditional _ arms) = length arms
waiting (Scope.loop _ breaks) = length breaks
waiting (Scope.switch _ arms breaks) = length arms + length breaks

abbrev pub pending : List Scope → ℕ
pending [] = 0
pending (s ∷ scopes) = waiting s + pending scopes

pub Below-append : (n : ℕ) (xs : List ℕ) (x : ℕ) → Below n xs → x < n → Below n (xs ++ x ∷ [])
Below-append n [] x h k = (k, tt)
Below-append n (y ∷ xs) x h k = (h.0, Below-append n xs x h.1 k)

pub Below-grow : (n m : ℕ) (xs : List ℕ) → n ≤ m → Below n xs → Below m xs
Below-grow n m [] h b = tt
Below-grow n m (x ∷ xs) h b = (omega (arith, b.0), Below-grow n m xs h b.1)

ScopeBelow-grow : (n m : ℕ) (s : Scope) → n ≤ m → ScopeBelow n s → ScopeBelow m s
ScopeBelow-grow n m (Scope.conditional pre arms) h b =
    (omega (arith, b.0), Below-grow n m arms h b.1)
ScopeBelow-grow n m (Scope.loop header breaks) h b =
    (omega (arith, b.0), Below-grow n m breaks h b.1)
ScopeBelow-grow n m (Scope.switch pre arms breaks) h b =
    (omega (arith, b.0), Below-grow n m arms h b.1, Below-grow n m breaks h b.2)

pub ScopesBelow-grow : (n m : ℕ) (ss : List Scope) → n ≤ m → ScopesBelow n ss → ScopesBelow m ss
ScopesBelow-grow n m [] h b = tt
ScopesBelow-grow n m (s ∷ ss) h b = (ScopeBelow-grow n m s h b.0, ScopesBelow-grow n m ss h b.1)

module _ {ℓ ω} {W : Type ω} {I : Type ℓ} where
  -- The current block is the last one.
  pub record IsBuilding (s : BuildState W I) : Type (ℓ ⊔ ω) where
    pub whole : IsWhole s.cfg
    pub last : node_bound s.cfg.graph ≡ suc s.current
    pub scopes : ScopesBelow (node_bound s.cfg.graph) s.scopes

  -- Room for one instruction more.
  pub record HasRoom (s : BuildState W I) : Type 0 where
    pub blocks : node_bound s.cfg.graph + 2 ≤ max_slots
    pub edges : edge_bound s.cfg.graph + pending s.scopes + 3 ≤ max_slots

  pub record Follows (s s' : BuildState W I) (is : List I) (frames : List Frame)
      : Type (ℓ ⊔ ω) where
    pub building : IsBuilding s'
    pub shape : map frame s'.scopes ≡ frames
    pub code : program (payloads s'.cfg.graph) ≡ program (payloads s.cfg.graph) ++ is
    pub blocks : node_bound s'.cfg.graph ≤ node_bound s.cfg.graph + 2
    pub edges :
        edge_bound s'.cfg.graph + pending s'.scopes ≤ edge_bound s.cfg.graph + pending s.scopes + 3
    pub entry : s'.cfg.entry ≡ s.cfg.entry

  -- An instruction does to the state what the verdict says, and appends `is` to the code.
  abbrev pub Meets : BuildState W I → List I → Attempt (BuildState W I) → Verdict → Type (ℓ ⊔ ω)
  Meets s is r (accept frames) = (s' : BuildState W I) × (r ≡ ok s') × Follows s s' is frames
  Meets s is r (reject e) = r ≡ err e

  -- A state after `cfg` was extended.
  pub Follows-of :
      (s : BuildState W I) (cfg : Cfg W I (Unit {0})) (current : ℕ) (scopes : List Scope)
      (is : List I) (n m : ℕ)
      → Adds s.cfg cfg is n m
      → node_bound cfg.graph ≡ suc current
      → ScopesBelow (node_bound cfg.graph) scopes
      → n ≤ 2
      → m + pending scopes ≤ pending s.scopes + 3
      → Follows s (record { cfg = cfg; current = current; scopes = scopes }) is (map frame scopes)
  Follows-of s cfg current scopes is n m a last below few held = record {
    building = record { whole = a.whole; last = last; scopes = below };
    shape = refl;
    code = a.code;
    blocks = omega (arith, a.blocks, few);
    edges = omega (arith, a.edges, held);
    entry = a.entry;
  }

  -- The state with these parts.
  abbrev pub state : Cfg W I (Unit {0}) → ℕ → List Scope → BuildState W I
  state cfg current scopes = record { cfg = cfg; current = current; scopes = scopes }
