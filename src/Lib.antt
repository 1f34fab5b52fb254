-- ===== src/Lib.antt =====
-- The Python tools that test the Determinant virtual machine.
--
-- Determinant is a RISC-V virtual machine in Zig; its repository has two test tools in Python.
-- tools/mutation plants one small bug (a mutant) at a time in the sources, runs the test suites and
-- judges from their output whether the bug was noticed. tools/spike_diff runs generated programs on
-- the reference simulator Spike and on Determinant and compares the final states.
--
-- Base: Boolean tests, lists over the native numbers, Python's str as a list of code points
--   (Base/Text), integers (Base/Int) and the bits of words (Base/Bits).
-- Mutation: tools/mutation/mutate.py.
--   Mutation/Edits: `apply_edits`, with `str.count` and `str.replace(.., 1)`.
--   Mutation/Catalogue: `catalogue_problems` and `validate`; a mutant is a dict whose keys may be
--     missing. Mutation/Catalogue/Gate: `select`, and the checks of `cmd_check` and `cmd_run`
--     before anything is changed; its mutants are what a run works on.
--   Mutation/Run: `run_mutant` and `recover_in_progress` as lists of effects on a tree of files.
--     A write is two effects, since a process can be killed inside it; `outside` stands for a build
--     or the clean-up of the cache, any function of the tree. What the theorems rely on is that
--     these leave the source files and the marker alone (`Keeps`).
--   Mutation/Cache: `snapshot_cache` and `restore_cache`, by which `run_mutant` cleans up.
--   Mutation/Patterns, Mutation/Output, Mutation/Analysis: the regular expressions, `parse_tree`,
--     `analyse`, `overall_status` and `failed_suites`: what the output of a build says.
-- Spike: tools/spike_diff.
--   Spike/Hints: `classify_hint` of coverage.py, and the encodings that `Gen.g_c_hint` of gen.py
--     writes.
--   Spike/Compare: `spike_state` and `compare` of pipeline.py; Spike/Compare/Configs:
--     `compare_configs`.
--   Spike/Constants: `s12` and `Gen.li` of gen.py, with the instructions that `li` writes run on
--     registers.
--   Spike/DeviceTree: `build` of mkdtb.py, with its string table and its padding.
--   Spike/Encodings: `rand_word`, `effective_address` and `known_class` of encsweep.py. What the
--     random generator draws is an argument.
--
--   Spike/Generator: the class `Gen` of gen.py. A method is a function of the attributes and of a
--     stream of draws, which gives a result, new attributes and the rest of the stream (Draws);
--     `none` is the IndexError of `rng.choice` on an empty list. A line of assembly is a value with
--     its registers (Lines). Alu, Compressed, Memory and Control have the categories, Resolve places
--     labels, Mixes and Blocks choose categories and make loops, Program has the whole body.
--     `rng.random()` is a number of 53 bits, so that a probability is a comparison with that many
--     percent of 2 ^ 53; weights are in tenths. A loop makes no loop inside it, so depth 1 is enough.
--     Spike/Generator/Rules and Spike/Generator/Registers are what the proofs are made of, and
--     Spike/Generator/Sound says what holds of each category and of a whole program.
--   Spike/Fuzz: `prepare` and `main` of fuzz.py, from the generator to the exit status. The build,
--     Spike and the runner are functions in a record (Setting); the log keeps the kind of an entry.
--     The size of a batch is any integer; the first seed, the count of programs and the count of
--     items are natural numbers. With a positive size a mix has at most as many rounds of batches as
--     seeds, since a batch takes one seed at least.
--   Spike/Handler: `trap_handler` of template.py as instructions, and what they do on a hart.
--   Spike/Trace: the alignment of two traces in `main` of trace.py.
--
-- Exceptions are values: an Option, or a constructor of the operation's own result. Loops are
-- structural recursion, except for `str.count`, which has one round for each character and one
-- more, for the comparison of two memories, whose rounds are bounded by the bytes, for the padding
-- of a block (three rounds, since a fourth byte would be a whole word) and for the digits of an
-- address (nine, and an address that `build` accepts has eight). Messages are constructors with the
-- values that they show.
--
-- Not modelled: the virtual machine (Zig), the calls of external programs (zig, Spike, the
-- assembler), argument parsing, printed reports, times, files that are not UTF-8, and `\w`, `\d`
-- and `\s` beyond ASCII.
pub mod Base
pub mod Mutation
pub mod Spike
