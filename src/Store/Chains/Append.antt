-- ===== src/Store/Chains/Append.antt =====
-- `thread` and `append` keep every chain in step with the delta edges.
use cfglib.Prelude.{
  ℕ, ◌<◌, ◌≡◌, ◌∙◌, ◌≢◌, List, length, get_elem?, some, arith, ≢→==, ok, get_elem?_lt,
}
use cfglib.Store.Chains.{
  Direction, Links, link, no_link, DeltaChains, write_link, relink, splice, thread,
}
use cfglib.Store.Chains.Thread.{link_at, last_of, Writes, write_link-Writes, Extends}

-- The call of `thread` returns chains that differ from `c` as `Extends` says.
pub record Threads (c : DeltaChains) (node : ℕ) (dir : Direction) (n first : ℕ) : Type 0 where
  pub out : DeltaChains
  pub run : thread c node dir n ≡ ok out
  pub extends : Extends c out dir node n first
  pub size_last : length out.last ≡ length c.last
  pub size_next : length out.next ≡ length c.next
  pub other_last : (d : Direction) (j : ℕ) → d ≢ dir → link_at out.last d j ≡ link_at c.last d j
  pub other_next : (d : Direction) (j : ℕ) → d ≢ dir → link_at out.next d j ≡ link_at c.next d j

-- `relink` and `thread` from the reads and writes that they make.
relink_run :
    (next next₁ : List Links) (dir : Direction) (m n first : ℕ) (old : Links)
    → get_elem? next m ≡ some old
    → link old dir ≡ first
    → write_link next m dir n ≡ ok next₁
    → m ≢ no_link
    → splice next dir m n ≡ ok (next₁, first)
unfolding relink splice
relink_run next next₁ dir m n first old e f w ne = rw (≢→== m no_link ne, e, w, f)

thread_run :
    (c : DeltaChains) (node : ℕ) (dir : Direction) (n first m : ℕ) (l : Links)
    (next₁ next₂ last' : List Links)
    → get_elem? c.last node ≡ some l
    → link l dir ≡ m
    → splice c.next dir m n ≡ ok (next₁, first)
    → write_link next₁ n dir first ≡ ok next₂
    → write_link c.last node dir n ≡ ok last'
    → thread c node dir n ≡ ok (record { last = last'; next = next₂ })
unfolding thread
thread_run c node dir n first m l next₁ next₂ last' e q s w w' = rw (e, q, s, w, w')

module _ (c : DeltaChains) (node : ℕ) (dir : Direction) (n : ℕ) (hl : node < length c.last)
    (hn : n < length c.next) (room : n < no_link) where
  last_write : Writes c.last node dir n
  last_write = write_link-Writes c.last node dir n hl

  last_read : (l : Links) × (get_elem? c.last node ≡ some l) × (link l dir ≡ last_of c dir node)
  last_read = let (l, e) = get_elem?_lt c.last node hl in (l, e, rw e)

  pub thread_empty : last_of c dir node ≡ no_link → Threads c node dir n n
  unfolding thread splice
  thread_empty empty =
      let (l, e, same) = last_read in
      let w = write_link-Writes c.next n dir n hn in
      let w' = last_write in
      record {
        out = record { last = w'.out; next = w.out };
        run = rw (e, same, empty, w.run, w'.run);
        extends = record {
          lasts = λ v. ground (arith, w'.here v);
          nexts = λ j h. ground (arith, w.here j, empty);
        };
        size_last = w'.size;
        size_next = w.size;
        other_last = w'.there;
        other_next = w.there;
      }

  pub thread_ring :
      (first : ℕ)
      → last_of c dir node < n
      → link_at c.next dir (last_of c dir node) ≡ some first
      → Threads c node dir n first
  thread_ring first less at =
      let (l, e, same) = last_read in
      let m = last_of c dir node in
      let (old, eo) = get_elem?_lt c.next m (omega arith) in
      let is_first : link old dir ≡ first = ground (arith, at, eo) in
      let w = write_link-Writes c.next m dir n (omega arith) in
      let w₂ = write_link-Writes w.out n dir first (omega (arith, w.size)) in
      let w' = last_write in
      record {
        out = record { last = w'.out; next = w₂.out };
        run =
            thread_run c node dir n first m l w.out w₂.out w'.out e same
              (relink_run c.next w.out dir m n first old eo is_first w.run (omega arith)) w₂.run
              w'.run;
        extends = record {
          lasts = λ v. ground (arith, w'.here v);
          nexts = λ j h. w₂.here j ∙ ground (arith, w.here j);
        };
        size_last = w'.size;
        size_next = w₂.size ∙ w.size;
        other_last = w'.there;
        other_next = λ d j q. w₂.there d j q ∙ w.there d j q;
      }
