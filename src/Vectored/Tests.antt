-- ===== src/Vectored/Tests.antt =====
-- The theorems on the vectored handlers at concrete models.
use cfglib.Prelude.{ℕ, suc, ◌≡◌, [], ◌∷◌, some, ok, arith}
use cfglib.Vectored.{exception, continuation, last, VectoredExceptionModel, register, remove, len}
use cfglib.Vectored.Identities.{IsRegistered, remove-register}
use cfglib.Vectored.Removal.{Removes, remove_twice}

-- Two exception handlers, the second registered in front, and a continue handler.
abbrev three : VectoredExceptionModel ℕ
three = record {
  next_id = 3;
  exception_handlers =
      (record { id = 1; kind = exception; handler = 20 })
      ∷ (record { id = 0; kind = exception; handler = 10 })
      ∷ [];
  continue_handlers = (record { id = 2; kind = continuation; handler = 30 }) ∷ [];
}

three-IsRegistered : IsRegistered three
three-IsRegistered = record {
  below_exception = (omega arith, (omega arith, tt));
  below_continue = (omega arith, tt);
  distinct_exception = (((λ q. absurd (omega arith)), tt), (tt, tt));
  distinct_continue = (tt, tt);
  apart = (((λ q. absurd (omega arith)), tt), (((λ q. absurd (omega arith)), tt), tt));
}

remove-register_example :
    (m : VectoredExceptionModel ℕ) × (id : ℕ) × (register three exception last 40 ≡ ok (m, id))
    × IsRegistered m
    × (len m ≡ suc (len three))
    × (remove m id
        ≡ (record three { next_id = 4 }, some (record { id = id; kind = exception; handler = 40 })))
remove-register_example = remove-register three exception last 40 three-IsRegistered (omega arith)

remove_twice_example : Removes three 0 (remove three 0)
remove_twice_example = remove_twice three 0 three-IsRegistered
