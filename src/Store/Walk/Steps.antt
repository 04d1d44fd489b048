-- ===== src/Store/Walk/Steps.antt =====
-- A walk yields the live edges of the run and the chain that lie before its cursor.
use cfglib.Prelude.{
  ℕ, zero, suc, ◌+◌, ◌-◌, ◌<◌, ◌≤◌, ◌≡◌, refl, ◌∙◌, ap, ◌⊎◌, inl, inr, List, [], ◌∷◌, ◌++◌, Bool,
  false, length, get_elem?, ◌==◌, if◌then◌else◌, Option, none, some, Result, ok, ◌>>=◌, map, arith,
  Bool-cases, ≢→==,
}
use cfglib.Store.Chains.{no_link}
use cfglib.Store.Chains.Ring.{final, Walks, Walks-final}
use cfglib.Store.Chains.Thread.{link_at}
use cfglib.Store.LiveSet.{LiveSet}
use cfglib.Store.Walk.{
  AdjacencyCursor, Axis, passes, advance_base, after_delta, advance_delta, advance, collect,
}

-- `filter` by a Boolean test.
abbrev pub select : (ℕ → Bool) → List ℕ → List ℕ
select p [] = []
select p (e ∷ es) = if p e then e ∷ select p es else select p es

pub select-append :
    (p : ℕ → Bool) (xs ys : List ℕ) → select p (xs ++ ys) ≡ select p xs ++ select p ys
select-append p [] ys = refl
select-append p (x ∷ xs) ys = ground (arith, select-append p xs ys)

-- The entries of `edges` from `base` up to `end`.
abbrev pub Slice : List ℕ → ℕ → ℕ → List ℕ → Type 0
Slice edges base end [] = base ≡ end
Slice edges base end (e ∷ es) = (get_elem? edges base ≡ some e) × Slice edges (suc base) end es

pub Slice-length :
    (edges : List ℕ) (base end : ℕ) (es : List ℕ) → Slice edges base end es → base + length es ≡ end
Slice-length edges base end [] s = omega arith
Slice-length edges base end (e ∷ es) s = omega (arith, Slice-length edges (suc base) end es s.1)

-- The chain from a cursor on.
abbrev pub Rest : (ℕ → Option ℕ) → (ℕ → Option ℕ) → ℕ → ℕ → ℕ → ℕ → List ℕ → Type 0
Rest next owner v first delta last [] = delta ≡ no_link
Rest next owner v first delta last (e ∷ es) =
    (delta ≡ e) × (last ≡ final e es) × (last < no_link) × Walks next owner v first e es

module _ (axis : Axis) (live : Option LiveSet) (owner : ℕ → Option ℕ) (v first : ℕ) where
  abbrev pub next_of : ℕ → Option ℕ
  next_of = link_at axis.chains.next axis.chain

  -- The cursor stands before the run `bs` and the chain `ds`.
  abbrev pub IsBefore : AdjacencyCursor → List ℕ → List ℕ → Type 0
  IsBefore c bs ds =
      Slice axis.edges c.base c.base_end bs × Rest next_of owner v first c.delta c.delta_last ds

  -- One call of `advance` at a position with the edges `es` ahead, of which it yields the first.
  abbrev pub Yields : ℕ → Result (Option ℕ × AdjacencyCursor) → List ℕ → List ℕ → Type 0
  Yields db r bs ds =
      ((found : ℕ) × (c : AdjacencyCursor) × (bs' : List ℕ) × (ds' : List ℕ) × (r
          ≡ ok (some found, c))
        × IsBefore c bs' ds'
        × (length ds' ≤ length ds)
        × (length bs' + length ds' < length bs + length ds)
        × (select (passes live) (bs ++ map (◌+◌ db) ds)
            ≡ found ∷ select (passes live) (bs' ++ map (◌+◌ db) ds')))
      ⊎ ((c : AdjacencyCursor) × (r ≡ ok (none, c))
          × (select (passes live) (bs ++ map (◌+◌ db) ds) ≡ []))

  -- The link behind the cursor's edge leads to the rest of the chain.
  chain_step :
      (c : AdjacencyCursor) (d : ℕ) (ds : List ℕ)
      → Rest next_of owner v first c.delta c.delta_last (d ∷ ds)
      → (after : ℕ) × (after_delta axis live c ≡ ok after)
        × Rest next_of owner v first after c.delta_last ds
  unfolding after_delta
  chain_step c d [] (e, l, room, w) = (no_link, ground arith, refl)
  chain_step c d (x ∷ ds) (e, l, room, w) =
      let (le, _, _) = Walks-final next_of owner v first x ds w.3 in
      (x, ground (arith, w.1), (refl, l, room, w.3))

  chain_full :
      (c : AdjacencyCursor) (d : ℕ) (ds : List ℕ)
      → Rest next_of owner v first c.delta c.delta_last (d ∷ ds)
      → (c.delta == no_link) ≡ false
  chain_full c d ds (e, l, room, w) =
      let (le, _, _) = Walks-final next_of owner v first d ds w in
      ≢→== c.delta no_link (omega arith)

  -- An edge that does not pass is stepped over.
  Yields-skip_chain :
      (db d : ℕ) (r : Result (Option ℕ × AdjacencyCursor)) (ds : List ℕ)
      → passes live (db + d) ≡ false
      → Yields db r [] ds
      → Yields db r [] (d ∷ ds)
  Yields-skip_chain db d r ds p (inl (found, c, bs', ds', run, at, few, less, eq)) =
      inl (found, c, bs', ds', run, at, omega arith, omega arith, ground (arith, p, eq))
  Yields-skip_chain db d r ds p (inr (c, run, eq)) = inr (c, run, ground (arith, p, eq))

  -- The chain loop.
  advance_delta-Yields :
      (db fuel : ℕ) (c : AdjacencyCursor) (ds : List ℕ)
      → c.base ≡ c.base_end
      → Rest next_of owner v first c.delta c.delta_last ds
      → length ds < fuel
      → Yields db (advance_delta axis live db fuel c) [] ds
  unfolding advance_delta
  advance_delta-Yields db zero c ds b r h = absurd (omega arith)
  advance_delta-Yields db (suc fuel) c [] b r h = inr (c, rw r, refl)
  advance_delta-Yields db (suc fuel) c (d ∷ ds) b r h =
      let (after, run, next) = chain_step c d ds r in
      let moved = record c { delta = after } in
      elim (Bool-cases (passes live (db + c.delta))) [
        | inl p ↦ inl (
          db + c.delta,
          moved,
          [],
          ds,
          rw (chain_full c d ds r, run, p),
          (b, next),
          omega arith,
          omega arith,
          ground (arith, p, r.0),
        )
        | inr p ↦
            rw (chain_full c d ds r, run, p)
              (Yields-skip_chain db d (advance_delta axis live db fuel moved) ds (rw r.0 at p)
                (advance_delta-Yields db fuel moved ds b next (omega arith)))
      ]

  Yields-skip_run :
      (db b : ℕ) {r r' : Result (Option ℕ × AdjacencyCursor)} (bs ds : List ℕ)
      → r' ≡ r
      → passes live b ≡ false
      → Yields db r bs ds
      → Yields db r' (b ∷ bs) ds
  Yields-skip_run db b bs ds same p (inl (found, c, bs', ds', run, at, few, less, eq)) =
      inl (found, c, bs', ds', same ∙ run, at, omega arith, omega arith, ground (arith, p, eq))
  Yields-skip_run db b bs ds same p (inr (c, run, eq)) = inr (c, same ∙ run, ground (arith, p, eq))

  advance_base-skip :
      (b left : ℕ) (c : AdjacencyCursor)
      → get_elem? axis.edges c.base ≡ some b
      → passes live b ≡ false
      → advance_base axis live (suc left) c
        ≡ advance_base axis live left (record c { base = suc c.base })
  unfolding advance_base
  advance_base-skip b left c e p = rw (e, p)

  -- The continuation of `advance` behind the run loop.
  abbrev then_chain :
      ℕ → ℕ → Result (Option ℕ × AdjacencyCursor) → Result (Option ℕ × AdjacencyCursor)
  then_chain db fuel r = r >>= λ (found, c).
      let chain = advance_delta axis live db fuel c in
      elim found [ some edge ↦ ok (some edge, c) | none ↦ chain ]

  advance_base-Yields :
      (db fuel : ℕ) (c : AdjacencyCursor) (bs ds : List ℕ)
      → IsBefore c bs ds
      → length ds < fuel
      → Yields db (then_chain db fuel (advance_base axis live (length bs) c)) bs ds
  unfolding advance_base
  advance_base-Yields db fuel c [] ds (b, r) h = advance_delta-Yields db fuel c ds b r h
  advance_base-Yields db fuel c (x ∷ bs) ds ((e, s), r) h =
      let c' = record c { base = suc c.base } in
      elim (Bool-cases (passes live x)) [
        | inl p ↦
            inl (x, c', bs, ds, rw (e, p), (s, r), omega arith, omega arith, ground (arith, p))
        | inr p ↦
            Yields-skip_run db x bs ds
              (ap (then_chain db fuel) (advance_base-skip x (length bs) c e p)) p
              (advance_base-Yields db fuel c' bs ds (s, r) h)
      ]

  advance-Yields :
      (db : ℕ) (c : AdjacencyCursor) (bs ds : List ℕ)
      → IsBefore c bs ds
      → length ds ≤ length axis.chains.next
      → Yields db (advance axis live db c) bs ds
  unfolding advance
  advance-Yields db c bs ds at h =
      let size : c.base_end - c.base ≡ length bs =
        omega (arith, Slice-length axis.edges c.base c.base_end bs at.0) in
      rw size (advance_base-Yields db (suc (length axis.chains.next)) c bs ds at (omega arith))

  -- A walk that stands before a compressed run and a chain, the chain within the delta, returns,
  -- with more steps than edges ahead, exactly the edges of the run and then of the chain that pass
  -- the liveness test, in order.
  pub collect-IsBefore :
      (db fuel : ℕ) (c : AdjacencyCursor) (bs ds : List ℕ)
      → IsBefore c bs ds
      → length ds ≤ length axis.chains.next
      → length bs + length ds < fuel
      → collect axis live db fuel c ≡ ok (select (passes live) (bs ++ map (◌+◌ db) ds))
  unfolding collect
  collect-IsBefore db zero c bs ds at h m = absurd (omega arith)
  collect-IsBefore db (suc fuel) c bs ds at h m = elim (advance-Yields db c bs ds at h) [
    | inl (found, c', bs', ds', run, at', few, less, eq) ↦
        rw (run, eq) (rw (collect-IsBefore db fuel c' bs' ds' at' (omega arith) (omega arith)))
    | inr (c', run, eq) ↦ rw (run, eq)
  ]
