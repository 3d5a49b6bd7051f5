-- ===== src/Swarm/Tests.antt =====
-- A node that starts a swarm, and the theorems at it.
use thrive.Prelude.{◌≡◌, refl, true, false, none, some, List, [], ◌∷◌, text, ◌=ᵗ◌}
use thrive.Swarm.{
  State, token, new_state, join_token, Call, init_call, leave_call, join_token_call, join_call,
  run_all,
}
use thrive.Swarm.Tokens.{IsMember, run_all-IsMember}

abbrev node : State
node = new_state (text "10.0.0.1") [] (text "ab") (text "01") (text "02") 5

abbrev calls : List Call
calls =
    init_call (text "10.0.0.1") [] (text "ab") (text "01") (text "02") 5
    ∷ join_token_call (text "worker") true (text "03")
    ∷ leave_call false 2
    ∷ join_call [] []
    ∷ []

run_all-IsMember_example : IsMember (run_all calls none)
run_all-IsMember_example = run_all-IsMember calls none tt

abbrev later : State
later = record node { worker_token = text "THRIVE-worker-03" }

issued :
    join_token (text "worker") true (text "03") (some node)
    ≡ (some later, token (text "THRIVE-worker-03"))
unfolding join_token ◌=ᵗ◌
issued = refl
