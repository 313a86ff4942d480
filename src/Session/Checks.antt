-- ===== src/Session/Checks.antt =====
-- lib/VerificationSession.cpp, lib/cache.cpp and lib/SymbolTable.h, with numbers for what is LLVM's.
use arith_exe.Prelude.{ℕ, ◌≡◌, ◌↔◌, ◌==◌, refl, List, [], ◌∷◌, arith, length, get_elem?}
use arith_exe.Prelude.Int.{pos, negsuc}
use arith_exe.Prelude.{◌&&◌, ◌||◌, some, if◌then◌else◌}
use arith_exe.Session.Cache.{
  Cache, same_params, get_func_value, cache_func_value, is_visited, mark_visited,
  cache_func_value_lem,
}
use arith_exe.Prelude.{none}
use arith_exe.Session.Activation.{
  Thread, Blocks, finish, block, run_blocks, threads_of, run_blocks_lem,
}
use arith_exe.Session.Maps.{IsEquality, find, insert_or_assign}
use arith_exe.Session.Paths.{
  Decisions, alphabet_of, symbol_of, intern_loop_path, cleared, intern_all,
}
use arith_exe.Session.Interning.{intern_all_injective}

==-IsEquality : IsEquality {K = ℕ} (λ a b. a == b)
==-IsEquality = record { sound = λ a b h. ground (arith, h); complete = λ a b e. ground (arith, e) }

abbrev left : Decisions
left = record { site = 10; choice = 0 } ∷ []

abbrev right : Decisions
right = record { site = 10; choice = 1 } ∷ []

-- The same decisions in another loop are another path.
abbrev calls : List (ℕ × Decisions)
calls = (1, left) ∷ (1, right) ∷ (1, left) ∷ (2, left) ∷ []

symbols :
    (intern_all (λ a b. a == b) (cleared (λ (a : ℕ) (b : ℕ). a == b)) calls).1 ≡ 1 ∷ 2 ∷ 1 ∷ 3 ∷ []
unfolding intern_all intern_loop_path symbol_of alphabet_of find insert_or_assign
symbols = refl

intern_all_injective_example :
    (length (intern_all (λ a b. a == b) (cleared (λ (a : ℕ) (b : ℕ). a == b)) calls).1
      ≡ length calls)
    × ((get_elem? (intern_all (λ a b. a == b) (cleared (λ (a : ℕ) (b : ℕ). a == b)) calls).1 0
          ≡ get_elem? (intern_all (λ a b. a == b) (cleared (λ (a : ℕ) (b : ℕ). a == b)) calls).1 3)
        ↔ (get_elem? calls 0 ≡ get_elem? calls 3))
intern_all_injective_example =
    intern_all_injective (λ a b. a == b) ==-IsEquality calls 0 3 (omega arith) (omega arith)
      (omega arith)

abbrev known : Cache (λ (a : ℕ) (b : ℕ). a == b)
known = record { cache = (1, (pos 3 ∷ [], pos 6) ∷ []) ∷ []; visited_funcs = 1 ∷ [] }

cache_func_value_lem_example :
    (get_func_value
        (λ a b. a == b)
        (cache_func_value (λ a b. a == b) known 2 (pos 3 ∷ []) (negsuc 0))
        1
        (pos 3 ∷ [])
      ≡ (if 2 == 1 && same_params (pos 3 ∷ []) (pos 3 ∷ [])
          then some (negsuc 0)
          else get_func_value (λ a b. a == b) known 1 (pos 3 ∷ [])))
    × (is_visited
          (λ a b. a == b)
          (cache_func_value (λ a b. a == b) known 2 (pos 3 ∷ []) (negsuc 0))
          1
        ≡ is_visited (λ a b. a == b) known 1)
    × (is_visited (λ a b. a == b) (mark_visited (λ a b. a == b) known 2) 1
        ≡ (2 == 1 || is_visited (λ a b. a == b) known 1))
    × (get_func_value (λ a b. a == b) (mark_visited (λ a b. a == b) known 2) 1 (pos 3 ∷ [])
        ≡ get_func_value (λ a b. a == b) known 1 (pos 3 ∷ []))
cache_func_value_lem_example =
    cache_func_value_lem (λ a b. a == b) ==-IsEquality known 2 (pos 3 ∷ []) (negsuc 0) 1
      (pos 3 ∷ [])

-- A block in a block, and one after it; a session is the number of its analyses.
abbrev nested : Blocks {Session = ℕ} {Manager = ℕ} (λ (s : ℕ). s)
nested = block 1 (block 2 finish finish) (block 3 finish finish)

abbrev idle : Thread {Session = ℕ} {Manager = ℕ} (λ (s : ℕ). s)
idle = record { active_session = none; active_instance = some 9 }

run_blocks_lem_example :
    run_blocks (λ (s : ℕ). s) idle nested ≡ (idle, threads_of (λ (s : ℕ). s) nested)
run_blocks_lem_example = run_blocks_lem (λ (s : ℕ). s) idle nested
