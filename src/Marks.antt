-- ===== src/Marks.antt =====
-- A `Vec<bool>` of marks, and how many are unset: the measure of a search that marks what it finds.
use cfglib.Prelude.{
  ℕ, zero, suc, ◌<◌, ◌≤◌, ◌≡◌, refl, ap, inl, inr, List, [], ◌∷◌, Bool, true, false, length,
  get_elem?, set, replicate, ◌==◌, if◌then◌else◌, Option, none, some, Bool-cases, ==→≡, ==→≢, arith,
  get_elem?-set_self, get_elem?-set_ne,
}

abbrev pub is_marked : Option Bool → Bool
is_marked none = false
is_marked (some b) = b

-- Whether a fact is marked.
abbrev pub flag : List Bool → ℕ → Bool
flag d fact = is_marked (get_elem? d fact)

pub flag_of : (d : List Bool) (fact : ℕ) {b : Bool} → get_elem? d fact ≡ some b → flag d fact ≡ b
flag_of d fact at = ap is_marked at

-- How many facts are not marked.
abbrev pub unseen : List Bool → ℕ
unseen [] = 0
unseen (b ∷ d) = if b then unseen d else suc (unseen d)

pub flag-set :
    (d : List Bool) (fact f : ℕ)
    → fact < length d
    → flag (set d fact true) f ≡ (if fact == f then true else flag d f)
flag-set d fact f h = elim (Bool-cases (fact == f)) [
  | inl q ↦ let e = ==→≡ fact f q in rw (q, ← e) (ap is_marked (get_elem?-set_self d fact true h))
  | inr q ↦ rw q (ap is_marked (get_elem?-set_ne d fact f true (==→≢ fact f q)))
]

pub unseen-set :
    (d : List Bool) (fact : ℕ)
    → fact < length d
    → flag d fact ≡ false
    → suc (unseen (set d fact true)) ≡ unseen d
unseen-set [] fact h e = absurd (omega arith)
unseen-set (b ∷ d) zero h e = rw e
unseen-set (true ∷ d) (suc fact) h e = unseen-set d fact (omega arith) e
unseen-set (false ∷ d) (suc fact) h e = ap suc (unseen-set d fact (omega arith) e)

pub flag_lt : (d : List Bool) (fact : ℕ) → flag d fact ≡ true → fact < length d
flag_lt [] fact e = absurd (cc)
flag_lt (b ∷ d) zero e = omega arith
flag_lt (b ∷ d) (suc fact) e = omega (arith, flag_lt d fact e)

pub unseen-le : (d : List Bool) → unseen d ≤ length d
unseen-le [] = omega arith
unseen-le (b ∷ d) = ground (arith, unseen-le d)

pub unmarked : (n f : ℕ) → flag (replicate n false) f ≡ false
unmarked zero f = refl
unmarked (suc n) zero = refl
unmarked (suc n) (suc f) = unmarked n f
