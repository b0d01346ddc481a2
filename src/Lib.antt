-- ===== src/Lib.antt =====
-- Models of the bet language's implementation in Rust: its runtime, the lexer's token passes, the
-- formatter's literals, the mid-level IR with its validator and its textual form, and the integers and
-- arenas of its interpreter.
--
-- The parts. A bet program is lexed and parsed (crates/frontend), lowered to a control flow graph of
-- blocks (crates/midir), checked by `midir::validate`, and compiled against the runtime's C ABI
-- (crates/rt-abi, implemented by crates/runtime). The formatter (crates/fmt) writes source that the
-- lexer reads again.
--
-- Prelude: the libraries' names passed on; Boolean tests (Tests), lists over native numbers (Lists),
--   bit masks (Masks) and xor (Xor).
-- Runtime (crates/runtime/src/lib.rs, crates/rt-abi/src/lib.rs):
--   Outcome: `die` as a value, `check_affinity` and casts. An entry point returns an outcome; the
--     running thread is an argument.
--   Memory: `layout`, `alloc_or_die`, `align_up`. The system allocator is not source: it is the record
--     SysAlloc, whose laws are what `std::alloc` documents: aligned blocks, apart from those in use, that do
--     not pass the end of the address space.
--   Typed: the slab of a typed crib (`bet_cop`, `bet_holla_check`, `bet_evict`, `bet_evict_slot` on one
--     crib), with generations that wrap at 2^64. Valid, Handles and Ghosts prove its laws.
--   Bump: `BumpCrib` with its chunks. `alloc` loops: alloc_loop has two rounds of fuel, which Disjoint shows
--     to be enough. Arena, Placed, Disjoint and Frames prove its laws where `align_up`, which adds without a
--     check, does not wrap: Clear says that the chunks leave room for an alignment below 2^64.
--   Cribs: the entry points over all cribs, the per-thread scratch crib and shutdown; a handle is an
--     index into the list of control blocks.
--   Stash, DynVec, Rng, Boundaries: the maps, vecs, the generator, allocation contexts, recovery
--     boundaries and the task registry. `up_to` redraws on fuel, and returns once a draw is accepted.
-- Lexer (crates/frontend/src/lexer.rs): Token, Asi (`apply_asi`) and Literals (the decoders).
-- Formatter (crates/fmt/src/lib.rs): Literals (`escape_str`, `escape_byte`) and their RoundTrip.
-- Midir (crates/midir/src):
--   Ir: the data of ir.rs; Ir/Eq: the derived equality, floats as IEEE compares them.
--   Module: the tables of a compilation unit and their interning; an id is a table's length as a `u32`.
--   Build: `FuncBuilder` of build.rs; a panic is `none`.
--   Dominators: `compute_dominators` of validate.rs on rows of bits. A changed round clears a bit, so
--     n * n + 1 rounds are enough (Rounds); Sound relates the bits to walks.
--   Cfg: `successors` and `compute_preds`. Guards: `collect_downcast_sites` (Sites),
--     `collect_switch_guards` and `site_is_guarded`; Occurs says where a `Downcast` stands without the
--     collector, Collected that it misses none, and Sound, Sole, Runs and Accepted prove what is accepted.
--   Validate: the checks of validate.rs, which push their errors in order (Report, without the texts; an
--     index out of a table is the panic that it is in the code), for places (Places), rvalues (Values), and
--     statements, blocks, functions, globals and externs (Validate). Typing and Gives are typing rules
--     that do not mention the checker; FieldSound, PlaceSound, PlaceComplete, GivesSound and Assigns relate
--     the two, Operands and Reads are about what is read, and Accepts about a whole module.
--   Text: `lex` of text.rs over the rest of the text, on fuel that is its length (Ends); the classes of `char`
--     are a parameter, as the standard library takes them from Unicode. Quoted is `escape` and `lex_str`,
--     Names the naming tables, Decimal the decimal numbers of the standard library and `split_num`.
--     Printer and Parser are the two sides for constants, operands and places, Terms the parser of
--     terminators; `f64` is its 64 bits, and its text a parameter (FloatText). The parser's loops have
--     fuel for one round more than there are tokens (Fuel). Steps, Numerals and Written relate printed
--     pieces to tokens, Constants to Listed tokens to what is parsed, and RoundTrip puts them together.
-- Interp (crates/interp/src): Value (value.rs, with cells by their addresses), Ints (`wrap_to` and
--   `int_binary` on whole numbers, Whole, which stand for `i128`; Fits, Exact, Held, Divided and
--   DividedUnsigned prove its laws) and
--   Arena, the slots behind a crib (Refines).
-- Handles: the tags of a crib as both promise them, an interface with laws that the runtime's slab (Slab, Checked)
--   and the interpreter's arena (Grown) fill; Agree and Fresh compare them on a program's requests. The
--   runtime's test of a tag is `bet_holla_check`, which gives null on a slab without bytes: the laws are of
--   slabs that have an address.
-- Tests: concrete runs, at which the theorems apply.
--
-- Not modelled. The scan of the lexer is generated by logos; the language's parser, resolution and
-- lowering are not here, nor are the interpreter's expressions, statements, floats and vectors. The LLVM
-- backend, gg, the driver and the build tasks call other systems. Threads, files and output of the
-- runtime are effects of the host. The textual IR is here without types, rvalues, statements and
-- declarations, and a parse error without its position. Counters of the validator's maps are unbounded
-- here, and a block list is shorter than 2^64.
pub mod Prelude
pub mod Runtime
pub mod Lexer
pub mod Formatter
pub mod Midir
pub mod Interp
pub mod Handles
pub mod Tests
