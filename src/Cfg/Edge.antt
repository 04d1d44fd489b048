-- ===== src/Cfg/Edge.antt =====
-- The edges of a control-flow graph, crates/cfglib/src/edge.rs. A weight is an `f64` that this code
-- only stores, so its type is a parameter `W`.
use Prim.Native.String.{String}
use text.Mathlib.Text.{◌==◌}
use cfglib.Prelude
use cfglib.Prelude.{ℕ, List, [], ◌∷◌, Bool, true, false, Option, none, some, if◌then◌else◌}

pub data EdgeKind : Type 0 where
  fallthrough conditional_true conditional_false unconditional back call call_return switch_case
        jump indirect_jump indirect_call exception_handler exception_unwind exception_leave
        exception_resume exception_continue :
      EdgeKind

-- The macro's `ALL`, in declaration order.
abbrev pub all : List EdgeKind
all =
    fallthrough ∷ conditional_true ∷ conditional_false ∷ unconditional ∷ back ∷ call ∷ call_return
    ∷ switch_case ∷ jump ∷ indirect_jump ∷ indirect_call ∷ exception_handler ∷ exception_unwind
    ∷ exception_leave ∷ exception_resume ∷ exception_continue ∷ []

unfoldable pub name : EdgeKind → String
name fallthrough = "fallthrough"
name conditional_true = "true"
name conditional_false = "false"
name unconditional = "unconditional"
name back = "back"
name call = "call"
name call_return = "call_return"
name switch_case = "case"
name jump = "jump"
name indirect_jump = "indirect_jump"
name indirect_call = "indirect_call"
name exception_handler = "handler"
name exception_unwind = "unwind"
name exception_leave = "leave"
name exception_resume = "resume"
name exception_continue = "continue_exception"

unfoldable pub is_exceptional : EdgeKind → Bool
is_exceptional exception_handler = true
is_exceptional exception_unwind = true
is_exceptional exception_resume = true
is_exceptional exception_continue = true
is_exceptional _ = false

-- `into_iter().find(|kind| kind.name() == name)`
unfoldable pub find_named : List EdgeKind → String → Option EdgeKind
find_named [] text = none
find_named (kind ∷ kinds) text = if name kind == text then some kind else find_named kinds text

unfoldable pub from_name : String → Option EdgeKind
from_name text = find_named all text

pub record Edge {κ ω} (W : Type ω) (E : Type κ) : Type (κ ⊔ ω) where
  pub kind : EdgeKind
  pub weight : Option W
  pub payload : E

-- The place of a kind in the declaration, which the derived equality compares.
unfoldable pub discriminant : EdgeKind → ℕ
discriminant fallthrough = 0
discriminant conditional_true = 1
discriminant conditional_false = 2
discriminant unconditional = 3
discriminant back = 4
discriminant call = 5
discriminant call_return = 6
discriminant switch_case = 7
discriminant jump = 8
discriminant indirect_jump = 9
discriminant indirect_call = 10
discriminant exception_handler = 11
discriminant exception_unwind = 12
discriminant exception_leave = 13
discriminant exception_resume = 14
discriminant exception_continue = 15

unfoldable pub same_kind : EdgeKind → EdgeKind → Bool
unfolding discriminant
same_kind a b = Prelude.◌==◌ (discriminant a) (discriminant b)
