-- ===== src/Lib.antt =====
-- CLSmith generates random OpenCL C programs. Its core is that of Csmith: it chooses types, their
-- qualifiers and variables at random, and keeps beside each piece of generated code a static
-- analysis of it, by which it only generates code whose behaviour is defined. This library models
-- the data that the generator chooses from and the analysis data that its choices are checked
-- against.
--
-- Parts, and how they interact:
-- * Options and Random are src/CGOptions.cpp, src/Probabilities.h, and `rnd_flipcoin` and `rnd_upto`
--   of src/DefaultRndNumGenerator.cpp: the options that the other parts read, and a random choice as
--   a function from the number of values drawn so far. The values of `lrand48` are a parameter.
--   Where a choice is drawn again until a filter accepts it, Random/Gives has the assumption that a
--   value with a given remainder comes among the next ones. `rnd_upto` without a filter is `rnd_below`.
-- * Tables is src/ProbabilityTable.h, `DistributionTable` of src/Probabilities.cpp,
--   src/VectorFilter.cpp: how a random number becomes a choice. `VectorFilter::add` is `add_item`.
-- * Enumerator is src/Enumerator.h, the odometer of the exhaustive mode: a list of wheels with two
--   positions. The loop of its clients is `for_each`; Enumerator/Choices has its client
--   `get_all_qualifiers` of src/CVQualifiers.cpp.
-- * Qualifiers is src/CVQualifiers.cpp: the const and volatile levels of a type. `stricter_than`,
--   `match` (here `matches`), `match_indirect`, `indirect_qualifiers` and the like are in
--   Qualifiers; the choice of qualifiers from given ones is in Qualifiers/Generate, and that from a
--   type in Qualifiers/Fresh. Where the source recurses into `match` with qualifiers that it has
--   dereferenced, `match_after_deref` is that inner call.
-- * Types is src/Type.cpp: the data type of types, and in Types/Size and Types/Conversion the tests
--   and the conversions on them. Types/Structs has `make_random_struct_type`; its three vectors of
--   fields, qualifiers and bit-field lengths are one list. `match` is `match_type`, and `SizeInBytes` is `size_in_bytes`.
-- * Variables is src/Variable.cpp: variables as addresses in a store, with their fields, parents,
--   collective arrays and unions. `match` is `matches_var`. The sets of variables that all analyses
--   are made of are in Variables/Sets, and the const and volatile tests, which read Qualifiers and
--   Types, in Variables/Qualified.
-- * Effects is src/Effect.cpp: what a piece of code reads and writes. Effects/Partial has the tests
--   on parts of aggregates, and Effects/Names those by name. `is_read` and `is_written` are
--   `covers` on the read and on the written variables. Block.cpp's `is_var_on_stack` is in Effects.
-- * Facts is src/Fact.cpp: environments of facts over an abstract class of facts, `FactClass`.
--   Facts/PointTo is src/FactPointTo.cpp, and Facts/Unions is src/FactUnion.cpp; both are instances
--   of that class. Facts/Dead has `mark_dead_var`.
-- * Contexts is src/CGContext.cpp: the context in which code is generated, which joins the parts
--   above. Contexts/Checks has the checks before a variable is accessed, which read union and
--   points-to facts, and Contexts/Pointed those of accesses through pointers; both leave the context
--   changed when they fail. `read_var`, `write_var`, `add_effect` and `add_external_effect` of the
--   class are `context_read_var` and so on. What `Expression::visit_facts` does with the indices of
--   an array is an interface, `Indices`. Contexts/Scope has `find_variable_scope`.
-- * Divergence is src/CLSmith/Divergence.cpp and .h: which variables may differ between the threads
--   of a kernel. Divergence has the maps, and the states that are saved at a branch and merged after
--   it; the members of `FunctionDivergence` and of `Divergence` are one record, and the vector of
--   saved states is a list whose head is its back. Divergence/Expressions has
--   `IsExpressionDivergent`, `GetExpressionVariableReferences`, and `IsAssignmentDivergent` as
--   `assign_pointer` and `assign_scalar`. Divergence/Threads is what the analysis is about: threads
--   that evaluate an expression on memories of their own, where `&&` and `||` may skip an operand
--   (src/FunctionInvocation.cpp, `IsOrderedStandardFunc`). Divergence/Marking is
--   `MarkSubBlockDivergentViral`, on the sub-blocks and branches that are given to it.
-- * Dfs is src/DFSRndNumGenerator.cpp, src/LinearSequence.cpp and `goGenerator` of
--   src/DFSProgramGenerator.cpp: the exhaustive mode. The program that is generated is a tree of its
--   choices, `Generation`; Dfs/Paths has its paths, without a generator.
-- * Tests runs the models on concrete inputs.
--
-- Bounds and fuel. A C++ `int` that counts indirections or names a field is an integer without
-- bound; the code only compares such numbers, and they are at most the depth of a type. The loop of
-- `remove_field_vars` runs on fuel, two visits for each element. The recursion of `field_is_read`
-- and `field_is_written`, and of `find_field_variable_in_set`, into nested aggregates runs on fuel,
-- the depth of the nesting. `next` of an enumerator calls itself at most once. The loop over an
-- enumerator, `rnd_upto` with a filter, the search of `find_variable_scope` over stack frames and
-- `goGenerator` run on fuel, and so does `MarkSubBlockDivergentViral`, where a number above that of
-- the sub-blocks is enough; `none` stands for fuel that is used up. All other loops are
-- structural recursion.
-- `none` stands for a failed assertion, an access out of range or a read of a null pointer, where a
-- function can fail. A null pointer that is returned is `none`, too; `mark_dead_var`, which also runs on
-- fuel, returns `some none` for it.
--
-- What is not modelled: the output of programs, the delta modes of random choice, the debugging
-- sequence and the traces of the exhaustive mode, the recording of choices for the delta modes,
-- statistics, memory management, and the cache of type objects (a type is compared by its
-- structure, an aggregate by its sequence id). The transfer
-- functions from expressions to facts, the choice of unions, pointers and variables,
-- the generation of statements, expressions and functions are not modelled, and in the divergence
-- analysis calls and statements are not, nor is how the branches below a sub-block are found.
pub mod Prelude
pub mod Options
pub mod Random
pub mod Qualifiers
pub mod Types
pub mod Variables
pub mod Effects
pub mod Facts
pub mod Enumerator
pub mod Contexts
pub mod Tables
pub mod Divergence
pub mod Dfs
pub mod Tests
