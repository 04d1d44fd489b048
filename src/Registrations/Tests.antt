-- ===== src/Registrations/Tests.antt =====
-- Runs of the registration chain.
use cfglib.Prelude.{ℕ, ◌≡◌, [], ◌∷◌, some, refl}
use cfglib.Registrations.{SehRegistration, SehRegistrationChain, pop, dispatch_order}

abbrev outer_frame : SehRegistration ℕ ℕ
outer_frame = record { frame = 4096; handler = 7; regions = 0 ∷ [] }

abbrev inner_frame : SehRegistration ℕ ℕ
inner_frame = record { frame = 3840; handler = 8; regions = [] }

abbrev two_frames : SehRegistrationChain ℕ ℕ
two_frames = record { registrations = outer_frame ∷ inner_frame ∷ [] }

dispatched : dispatch_order two_frames ≡ inner_frame ∷ outer_frame ∷ []
unfolding dispatch_order
dispatched = refl

popped : pop two_frames ≡ (record { registrations = outer_frame ∷ [] }, some inner_frame)
unfolding pop
popped = refl
