-- ===== src/Traverse/Preorder/Order.antt =====
-- What `depth_first_preorder` of crates/cfglib/src/graph/traverse.rs pushes, and the invariant of its
-- loop.
use cfglib.Prelude.{
  count, elem_later, ℕ, zero, suc, ◌+◌, ◌<◌, ◌≤◌, ◌≡◌, ◌⊎◌, ◌∙◌, refl, subst, ap, inl, inr, List,
  [], ◌∷◌, Bool, true, false, length, get_elem?, set, elem, ◌==◌, if◌then◌else◌, none, some, Result,
  ok, Bool-cases, ==→≡, arith, get_elem?_lt,
}
use cfglib.Marks.{flag, flag_of}
use cfglib.View.{View, TraversalDirection, neighbors, IsView}
use cfglib.Traverse.Reach.{Reaches}
use cfglib.Traverse.Preorder.{State, push_unvisited, edges_left}

-- What the loop over the neighbors pushes.
pub record Pushes (visited : List Bool) (adjacent stack : List ℕ) (r : Result (List ℕ))
    : Type 0 where
  pub out : List ℕ
  pub run : r ≡ ok out
  pub old : (m : ℕ) → elem m stack ≡ true → elem m out ≡ true
  pub only : (m : ℕ) → elem m out ≡ true → (elem m adjacent ≡ true) ⊎ (elem m stack ≡ true)
  pub each : (m : ℕ) → elem m adjacent ≡ true → (flag visited m ≡ true) ⊎ (elem m out ≡ true)
  pub size : length out ≤ length adjacent + length stack
  pub below : (k m : ℕ) → get_elem? out k ≡ some m → m < length visited

pub push_unvisited-Pushes :
    (visited : List Bool) (adjacent stack : List ℕ)
    → ((k m : ℕ) → get_elem? adjacent k ≡ some m → m < length visited)
    → ((k m : ℕ) → get_elem? stack k ≡ some m → m < length visited)
    → Pushes visited adjacent stack (push_unvisited visited adjacent stack)
unfolding push_unvisited
push_unvisited-Pushes visited [] stack h b = record {
  out = stack;
  run = refl;
  old = λ m e. e;
  only = λ m e. inr e;
  each = λ m e. absurd (cc (e));
  size = omega arith;
  below = b;
}
push_unvisited-Pushes visited (n ∷ adjacent) stack h b =
    let p = push_unvisited-Pushes visited adjacent stack (λ k m at. h (suc k) m at) b in
    let (seen, at) = get_elem?_lt visited n (h 0 n refl) in
    elim (Bool-cases seen) [
      | inl q ↦ record {
        out = p.out;
        run = rw (p.run, at, q);
        old = p.old;
        only = λ m e. elim (p.only m e) [ inl a ↦ inl (elem_later m n adjacent a) | inr c ↦ inr c ];
        each = λ m e. elim (Bool-cases (n == m)) [
          | inl here ↦
              inl (subst (λ x. flag visited x ≡ true) (==→≡ n m here) (flag_of visited n at ∙ q))
          | inr there ↦ p.each m (rw there at e)
        ];
        size = omega (arith, p.size);
        below = p.below;
      }
      | inr q ↦ record {
        out = n ∷ p.out;
        run = rw (p.run, at, q);
        old = λ m e. elem_later m n p.out (p.old m e);
        only = λ m e. elim (Bool-cases (n == m)) [
          | inl here ↦ inl (rw here refl)
          | inr there ↦ elim (p.only m (rw there at e)) [
            | inl a ↦ inl (elem_later m n adjacent a)
            | inr c ↦ inr c
          ]
        ];
        each = λ m e. elim (Bool-cases (n == m)) [
          | inl here ↦ inr (rw here refl)
          | inr there ↦ elim (p.each m (rw there at e)) [
            | inl a ↦ inl a
            | inr c ↦ inr (elem_later m n p.out c)
          ]
        ];
        size = omega (arith, p.size);
        below = pushed_below visited n p.out (h 0 n refl) p.below;
      }
    ]
  where
    pushed_below :
        (visited : List Bool) (n : ℕ) (out : List ℕ)
        → n < length visited
        → ((k m : ℕ) → get_elem? out k ≡ some m → m < length visited)
        → (k m : ℕ) → get_elem? (n ∷ out) k ≡ some m
        → m < length visited
    pushed_below visited n out h b zero m e = subst (λ x. x < length visited) (cc (e)) h
    pushed_below visited n out h b (suc k) m e = b k m e

pub edges_left-set :
    (axis : TraversalDirection) (view : View) (k : ℕ) (visited : List Bool) (i : ℕ)
    → i < length visited
    → flag visited i ≡ false
    → edges_left axis view k (set visited i true) + length (neighbors axis view (k + i))
      ≡ edges_left axis view k visited
unfolding edges_left
edges_left-set axis view k [] i h e = absurd (omega arith)
edges_left-set axis view k (b ∷ visited) zero h e =
    let same : k + 0 ≡ k = omega arith in
    let all = ap (λ j. length (neighbors axis view j)) same in rw e (omega (arith, all))
edges_left-set axis view k (b ∷ visited) (suc i) h e =
    let rest = edges_left-set axis view (suc k) visited i (omega arith) e in
    let same : k + suc i ≡ suc k + i = omega arith in
    let all = ap (λ j. length (neighbors axis view j)) same in omega (arith, rest, all)

module _ (view : View) (g : IsView view) (axis : TraversalDirection) (start : ℕ) where
  -- The state of the loop, with the nodes of the order marked and each in it once.
  pub record Invariant (s : State) : Type 0 where
    pub size : length s.visited ≡ view.node_bound
    pub sound : (f : ℕ) → flag s.visited f ≡ true → Reaches view axis none (start ∷ []) f
    pub waiting : (f : ℕ) → elem f s.stack ≡ true → Reaches view axis none (start ∷ []) f
    pub below : (k f : ℕ) → get_elem? s.stack k ≡ some f → f < length s.visited
    pub closed :
        (f m : ℕ)
        → flag s.visited f ≡ true
        → elem m (neighbors axis view f) ≡ true
        → (flag s.visited m ≡ true) ⊎ (elem m s.stack ≡ true)
    pub begun : (flag s.visited start ≡ true) ⊎ (elem start s.stack ≡ true)
    pub counted : (f : ℕ) → count f s.order ≡ (if flag s.visited f then 1 else 0)

  -- A mark or an entry of a stack that loses its first entry, which is marked.
  pub settle :
      (s : State) (node m : ℕ) (rest : List ℕ)
      → flag s.visited node ≡ true
      → (flag s.visited m ≡ true) ⊎ (elem m (node ∷ rest) ≡ true)
      → (flag s.visited m ≡ true) ⊎ (elem m rest ≡ true)
  settle s node m rest seen (inl a) = inl a
  settle s node m rest seen (inr b) = elim (Bool-cases (node == m)) [
    | inl q ↦ inl (subst (λ x. flag s.visited x ≡ true) (==→≡ node m q) seen)
    | inr q ↦ inr (rw q at b)
  ]

  pub skipped-Invariant :
      (s : State) (node : ℕ) (rest : List ℕ)
      → Invariant s
      → s.stack ≡ node ∷ rest
      → flag s.visited node ≡ true
      → Invariant (record s { stack = rest })
  skipped-Invariant s node rest v w seen = record {
    size = v.size;
    sound = v.sound;
    waiting = λ f e. v.waiting f (rw w (elem_later f node rest e));
    below = λ k f at. v.below (suc k) f (rw w at);
    closed = λ f m e edge. settle s node m rest seen (rw w at (v.closed f m e edge));
    begun = settle s node start rest seen (rw w at v.begun);
    counted = v.counted;
  }
