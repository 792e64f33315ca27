-- ===== src/Lib.antt =====
-- SmartExecutor: guided symbolic execution of smart contracts. This library models the guided
-- search, the Python package fdg, which decides which functions of a contract the symbolic executor
-- runs on which state.
--
-- Parts and how they interact:
--   Keys      fdg/utils.py. A state is named by a key: its function sequence and an index, joined
--             by "#". get_key_1 makes keys, get_ftn_seq_from_key_1 and get_key_1_prefix read them.
--             The index is printed in decimal; texts are lists of code points.
--   Slots     classes Function_Write_Read_Info and ReadInCondition of fdg/preprocessing: the slots that
--             each function reads and writes, from which Fwrg makes its graph.
--   Fwrg      class FWRG of fdg/fwrg_manager.py. An edge leads from a function that writes a slot to
--             a function that reads it in a condition.
--   Paths     AcyclicPath._get_path. Sequences from the start functions along the edges.
--   Targets   AcyclicPath.organize_paths and class UpdateFWRG: the paths to each target, and the graph
--             of their edges.
--   Augment   UpdateFWRG.add_edges_1: edges between the paths to one target.
--   Manager   class FWRG_manager: the constructors, which feed the parts above one into another.
--   Reach     FunctionAssignment.can_reach_targets and get_targets_be_reached in
--             fdg/control/function_assignment.py, on the augmented graph.
--   Assign    class FunctionAssignment: assign_functions and the counters; Assign/Random has the
--             variants for a timeout of the preprocessing and for the random baseline. A missing key
--             (KeyError) and a draw of too many numbers (ValueError) are results without a value.
--   Strategy  fdg/control/ftn_search_strategy.py: DFS, BFS and RandomBaseline, which save states by
--             their keys and pick one with the functions that Assign gives it; Strategy/Sequences has
--             class Seq.
--   Mine      class Mine of fdg/control/mine.py: update_states and filter_states; Mine/Pickup has the
--             choice of a state with its tie break, Mine/Rounds assign_states.
--   Covered   class FunctionCoverage of fdg/function_coverage.py: coverage, and the deep functions, which
--             are the targets of the search.
--   Dispatcher  class InstructionModification of fdg/instruction_modification.py: the groups of a
--             contract's instructions by the functions that the dispatcher matches (Dispatcher),
--             numbers and signatures of bytes (Dispatcher/Numbers), and the change of the dispatcher
--             on world states (Dispatcher/Modify).
--   Guider    class Guider of fdg/control/guider.py: the keys of the states of an iteration, and in
--             Guider/Iterate the steps around an iteration, start_iteration to save_genesis_states, which
--             call a strategy through the interface FunctionSearchStrategy and change the dispatcher of
--             the chosen states. Guider/Strategies has DFS and BFS as such strategies, Guider/Runs the
--             runs of the search as a step relation: between iterations the executor leaves any states.
--   Pruner    class FDG_pruner of fdg/fdg_pruner.py: its hooks at the start (Pruner) and at the end
--             (Pruner/Stop) of an iteration, which call the guider and FunctionCoverage and set
--             global_config.transaction_count; Pruner/Loop is the loop _execute_transactions_fdg of
--             mythril/laser/ethereum/svm.py around them, with the preprocessing on a copy
--             (execute_preprocessing of fdg/preprocessing/preprocess.py).
--   Instructions  class InstructionCoverage of fdg/preprocessing/instruction_coverage.py: what the
--             preprocessing finds of the executed instructions, which FunctionCoverage is fed with.
--   Percent   the double floats of coverage in per cent.
--   Prelude   shared helpers: tests, lists, equality as an interface, dictionaries.
--
-- Conventions: a Python dictionary is an association list in insertion order (Prelude/Dicts).
-- Objects are records, and a method that changes an object returns the changed record. A list that
-- two objects share is written back where the code changes it in place (Assign.extend_augmented,
-- and Covered.compute_deep_functions, whose sort reaches the functions of the first time). The
-- copies of a world state share the codes of its accounts: a code carries the identity of its object,
-- and the states that are prepared for an iteration get the last change of the object
-- (Guider.Iterate.share_codes). The states that a strategy has saved keep the code that they were saved
-- with; its instructions are set again before they are executed. An exception is a result without a
-- value.
--
-- Loops: a for loop is a structural recursion over what it loops on, and a while loop with a
-- counter one over the rounds left. Mine.Rounds.mine_rounds has fuel, one unit for each state in the
-- queue, since every round takes a state out, and Pruner.Loop.execute_transactions_fdg has one unit for
-- each round and one for the last test of `transaction_count`. Percent.exponent has one unit for each
-- exponent that a double can have. Every function is total.
--
-- Parameters: the order in which Python lists a set (Reach.SetOrder), the numbers that
-- np.random.choice draws (Assign.Random.Draw), the settings of fdg/global_config.py, the solver's
-- expressions and the slots in them, the record of the coverage plugin, and the world states with
-- what is asked of them, and what a message call leaves (Pruner.Loop.Executor): any open states and
-- any coverage, but not the plugin's iteration. The draws may be others in each round of a loop.
--
-- Indices: an index below zero counts from the end in Python. The search for a DUP1 before a jump
-- destination (Dispatcher.Modify.empty_before) may get there, and the model follows it.
--
-- Numbers: coverage in per cent, a float in the code, is kept as the pair of the counts that it is
-- computed from, and compared as the double that `covered / total * 100` rounds to (Percent). A sum of
-- floats is compared by a code of it that keeps the order (Mine.Pickup.Scoring). A storage slot is the
-- text to which fdg/expression_slot.py maps it.
--
-- Not modelled: printing, the texts of solver expressions that the preprocessing searches for slots,
-- and the symbolic executor (package mythril, a fork of another project) besides the loop that calls
-- the hooks: its message calls are a parameter.
pub mod Prelude
pub mod Percent
pub mod Keys
pub mod Fwrg
pub mod Paths
pub mod Targets
pub mod Reach
pub mod Augment
pub mod Manager
pub mod Assign
pub mod Strategy
pub mod Mine
pub mod Covered
pub mod Dispatcher
pub mod Guider
pub mod Pruner
pub mod Instructions
pub mod Slots
