-- ===== src/LoopPath/Checks.antt =====
-- A path with two symbols, a power whose exponent is the number 4, and a symbol.
use arith_exe.Prelude.{ℕ, ◌≡◌, refl, List, [], ◌∷◌}
use arith_exe.LoopPath.{append, append_symbolic_power, concrete_frontier}
use arith_exe.LoopPath.History.{Event, symbol, power, replay, events, since_power, events-replay}

abbrev taken : List (Event ℕ)
taken = symbol 1 ∷ symbol 2 ∷ power (5 ∷ 6 ∷ []) 4 ∷ symbol 7 ∷ []

frontier : concrete_frontier ℕ (replay ℕ [] taken) ≡ 7 ∷ []
unfolding concrete_frontier append append_symbolic_power
frontier = refl

events-replay_example :
    (events ℕ (replay ℕ [] taken) ≡ taken)
    × (concrete_frontier ℕ (replay ℕ [] taken) ≡ since_power ℕ (concrete_frontier ℕ []) taken)
events-replay_example = events-replay ℕ [] taken
