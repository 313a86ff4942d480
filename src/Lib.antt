-- ===== src/Lib.antt =====
-- ArithExe verifies C programs by symbolic execution over mathematical integers, with summaries of
-- loops and recursive functions and Z3 as the solver. A program's LLVM instructions turn one state
-- into several (lib/AInstruction.cpp); the engine (lib/engine.cpp) keeps the states that are still to
-- be run on a stack and settles assertions, branches and error calls by queries; for loops, the
-- decisions of the paths through the body are compressed into powers of words
-- (lib/PathExpression.cpp), from which accelerations are guessed.
--
-- PathExpression models lib/PathExpression.{h,cpp}.
--   Word: `exponent_bits`, `block_cost`, `word_equal_at`, `is_primitive_path_word`,
--     `expand_path_powers`; Order: `choice_key`, `CandidateOrder`; Factor: `factor_table`,
--     `backtrack`; Compress: `compress_path_prefix`. Each loop is a function of its own on the number
--     of its rounds. `std::size_t` has 64 bits and its sums are reduced by `wrap`; the theorems about
--     costs take a prefix that is so short (`IsShort`, about 2^62 symbols) that no sum is. The two
--     `while` loops on occurrences have the length of the prefix as fuel, since each round takes a
--     symbol, and `backtrack` has its position, which goes down. `std::sort` is insertion sort: under
--     the order of the candidates elements that are equal are the same for exponents within 64 bits,
--     so that every sort gives the same list. The functions that print are left out.
-- Engine models lib/engine.cpp, with `State::Status` and the fields of lib/state.h and the verdicts of
--   lib/common.h that it uses. Defs: the state, the engine's fields, and the record `Backend` of what
--   is outside: formulas, solver, models, instructions, certificates. Nothing is assumed of the
--   solver. Run: `record_issue`, `capture_counterexample`, `capture_loop_certificates`,
--   `capture_function_certificates`, `verify(state)`, `test`; Loop: `run(state)` one round at a time,
--   on fuel, because symbolic execution need not end, and `verify()`. `AInstruction::execute` is a
--   parameter. A round continues, returns, or stops at the assertion that the status is RUNNING.
--   Explored: the tree of states as a relation that does not mention the stack. Exceptions and the
--   text of messages are left out, and so is the LLVM pass pipeline of the constructors.
-- Session models `intern_loop_path` of lib/VerificationSession.cpp. Paths: the alphabets, one for each
--   loop, and the counter of 32 bits; loops and their equality are parameters. Maps: `std::map` as an
--   association list. `clear_module_state` empties the alphabets and restarts the counter.
--   Cache models lib/cache.cpp, for functions with a decided equality.
--   Activation models the constructor and destructor of `Activation`, with `set_active` of
--   lib/AnalysisManager.cpp; Symbols models lib/SymbolTable.h, with a failed assertion as none.
-- LoopPath models the prefix of `LoopPathExpressionState` in lib/state.h; History reads it as a sequence
--   of symbols and powers, with the exponents a parameter.
-- Z3: what lib/ takes from Z3, as the record `Z3` of expressions, their values, the builders and the
--   solver, with the laws in `Z3Laws`: the builders have their meaning, an answer unsat means that no
--   interpretation fits, an answer sat comes with one that does, a core is a subset that does not fit.
--   The solver may answer unknown, and its model need not determine every symbol. The tactic
--   "elim-term-ite" gives goals one of which holds exactly where the expression does, if they have no
--   constant with a "!" in its name. Samples gives instances for the runs.
-- Logic models lib/logics.cpp. Cases: `implies`, `conditionally_eq`, `is_feasible`, `is_equivalent`,
--   `merge_cases` (fuel: the number of cases), `piecewise2ite`; Pieces: `expr2piecewise` (fuel: the size
--   of the expression), `eliminate_ite`, with `cartesian_product` of lib/common.cpp; Cnf:
--   `minimize_conjunction`, `is_atom`, `atoms` (fuel: the size of the formula), `to_cnf` (fuel: two to
--   the number of atoms, enough where the models determine the atoms), `simplify` of both kinds. Where Z3
--   throws or the fuel runs out, the result is none. A failed assertion does not stop the model; what
--   the assertions ask is stated apart (`passes` and `aux_passes` in Pieces, `Asserted` in Normal).
-- Expression models lib/Expr.{h,cpp}: the three vectors of conditions, expressions and definitions are
--   one list.
-- Memory models lib/MemoryObject.{h,cpp} (Object), lib/MStack.{h,cpp} (Stack) and lib/Memory.{h,cpp}
--   (Heap). LLVM values, functions and instructions are parameters (`Program`), and so are the Z3
--   constants and functions that are named after them. What is undefined in C++ is none.
-- Integers models lib/IntegerSemantics.h: two's complement readings, division, remainder and ranges as
--   expressions over integers; Bitwise models lib/RelaxedIntegerSemantics.h, whose limit of 4096 digits
--   is the fuel. Z3/Arithmetic has what Z3's operators mean on integers.
-- LinearAlgebra models lib/LinearAlgebra.h: matrices over a record `Entries` of what the template asks
--   of its type, `solve` by rows of the augmented matrix, `inverse` on two matrices side by side.
-- Prelude: the names and lemmas that all modules share. The modules Checks run the models on small
-- inputs.
--
-- Not modelled: the rest of lib/ (instructions, summaries, the recurrence solver's client, witness
-- output), the Python recurrence solver in rec_solver/, and the driver in tools/.
pub mod Prelude
pub mod Z3
pub mod PathExpression
pub mod LoopPath
pub mod Engine
pub mod Session
pub mod Logic
pub mod Expression
pub mod Memory
pub mod Integers
pub mod LinearAlgebra
