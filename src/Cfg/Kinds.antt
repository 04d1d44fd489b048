-- ===== src/Cfg/Kinds.antt =====
-- The names of the edge kinds of crates/cfglib/src/edge.rs, and how they read back.
use Prim.Native.String.{String}
use text.Mathlib.Text.{◌==◌}
use text.Mathlib.TextEquality.{eq_iff}
use cfglib.Prelude.{
  ◌≡◌, ◌↔◌, refl, ap, subst, ==→≡, ≡→==, get_elem?, List, [], ◌∷◌, true, some, inl, inr, Bool-cases,
  arith,
}
use cfglib.Cfg.Edge.{EdgeKind, name, find_named, from_name, same_kind, discriminant, all}

find_named-name :
    (kinds : List EdgeKind) (text : String) (kind : EdgeKind)
    → find_named kinds text ≡ some kind
    → name kind ≡ text
unfolding find_named
find_named-name [] text kind e = cc
find_named-name (k ∷ kinds) text kind e = elim (Bool-cases (name k == text)) [
  | inl same ↦ ground (arith, eq_iff (name k) text)
  | inr other ↦ find_named-name kinds text kind (rw other at e)
]

from_name-name : (kind : EdgeKind) → from_name (name kind) ≡ some kind
unfolding from_name find_named name
from_name-name EdgeKind.fallthrough = refl
from_name-name _ = refl

-- A text reads back as a kind exactly if it is that kind's name.
from_name_iff :
    (text : String) (kind : EdgeKind) → (from_name text ≡ some kind) ↔ (name kind ≡ text)
unfolding from_name
from_name_iff text kind = (
  find_named-name all text kind,
  λ e. subst (λ t. find_named all t ≡ some kind) e (from_name-name kind),
)

all-discriminant : (kind : EdgeKind) → get_elem? all (discriminant kind) ≡ some kind
unfolding discriminant
all-discriminant EdgeKind.fallthrough = refl
all-discriminant _ = refl

pub same_kind_iff : (a b : EdgeKind) → (same_kind a b ≡ true) ↔ (a ≡ b)
unfolding same_kind
same_kind_iff a b = (
  λ e.
      let same = ap (get_elem? all) (==→≡ (discriminant a) (discriminant b) e) in
      cc (same, all-discriminant a, all-discriminant b),
  λ e. ≡→== (discriminant a) (discriminant b) (ap discriminant e),
)
