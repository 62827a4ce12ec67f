-- ===== src/Lib.antt =====
-- themelios: a toolkit for answer set programming in Rust. This library models the tiers that
-- carry its promises to a caller: the spans, sources and line index of crates/themelios-base,
-- the lexer of crates/themelios-syntax, the work list, the symbols, the terms and the
-- substitutions of crates/themelios-program, the solving contract of crates/themelios-solve, and
-- the queries of crates/themelios-query.
--
-- Prelude passes on the names that the modules share: numbers, lists, options, total orders, and
-- sets as ascending lists (a `BTreeSet`). Base.Span, Base.Source, Base.Coordinate and Base.Line
-- are span.rs, source.rs and line.rs: spans and their operations, the admission and slicing of a
-- source, and `LineIndex` with `of`, `position` and `offset`. A text is the list of its
-- characters, as code points; a byte offset counts their UTF-8 widths. A slice that the text
-- does not have, which panics, is `none`. Syntax.Token is the kinds of tree.rs with token.rs and
-- dialect.rs; Syntax.Scan, Syntax.Words, Syntax.Punctuation, Syntax.Quoted and Syntax.Lexer are
-- lexer.rs, `lex` and `token_at` last; its loops are recursion on the text. Program.WorkList is
-- work_list.rs: `WorkList` with `push`, `pop` and `extend`, an inline array and a heap part.
-- Program.Symbol is symbol.rs: the symbols, and `Ord::cmp` with its loop over a work list; a
-- `String` is the list of its bytes. Program.Term is term.rs: `Term`, `into_parts` and the
-- iterative `try_fold`; Program.Term.Eval is `evaluate`, an `i32` as an integer whose results
-- are checked; Program.Term.Canonical is `canonicalize`, with the pass `flatten_pools`;
-- Program.Term.Doors is the doors of term.rs and construct.rs. Program.Unify is the
-- substitutions of unify.rs: `get`, `resolve` and `Term::substitute`; Program.Unify.Nodes is its
-- graph of nodes, with `find`, `link` and `union`; Program.Unify.Solve is the loop of `unify`
-- over it, Program.Unify.Occurs is `occurs_check_holds`, Program.Unify.Consistent runs them on
-- nodes that are built, and Program.Unify.Build is `build`, `build_symbol` and `unify_arguments`
-- up to its read-out; Program.Unify.Pattern is `pattern_normalize`. Solve.Conclusion,
-- Solve.Model, Solve.Live and Solve.Consequences are outcome.rs: `Conclusion` and `Truncation`;
-- `Model`, its display and `ShowRule`; `LiveRun` with `pull`, `next`, `classify` and
-- `drain_each`; the fold of consequences. Solve.Contract is contract.rs: `Capabilities` and
-- `Fault`. Solve.Agent is agent.rs: Ledger, the slot map of the statements with its handles;
-- Engine, the steps that bring the backend level, and the requests to ground parts and to assign
-- externals; Questions, the record of the questions with the attributed run. A backend's state and calls are a parameter, `Backend`. Query is
-- themelios-query/src/lib.rs: the truth of a query in a member, the snapshot and its answers.
-- Tests runs the theorems at concrete inputs.
--
-- The parts meet where the program's do. The lexer reads a source by the offsets that the line
-- index places. A live run draws models from a run, displays each under the show rule, and
-- reports the run's conclusion; the gates of the complete collection, the fold of consequences
-- and the snapshot are read through it. The engine's run is outside the repository: it is a
-- parameter, a state with its `next_model` and `conclusion`. The agent's attributed run is such
-- a run over another. What a fault only carries is abstract, a `Vocabulary`, and so are the
-- parts and statements of the ledger.
--
-- Loops over a run or a work list take fuel, and `none` says that it ran out: a drain needs more
-- fuel than the run yields models, a comparison more than the left symbol has nodes, a query
-- twice its nodes, and a fold twice a term's nodes and one. `canonicalize` and what it calls
-- take that fuel from the terms. To resolve a term takes the turns that its bindings are counted
-- to, and to find a node's representative more than the node is high. The unifier takes the
-- count of its pairs and of the children of its representatives, and the occurs check that of
-- the nodes and of their children, with two; to build the graph takes the fuel of a fold.
-- A `u64` generation wraps at 2 ^ 64. An index out of bounds, which panics, is `none`.
--
-- Not modelled: the parser and the tree of crates/themelios-syntax; in crates/themelios-program
-- the statements and their transformations, the raising and the rendering, and how the unifier
-- reads a substitution out of its graph; crates/themelios-analysis, the diagnostics and views of
-- crates/themelios-base, the procedural macros, and the agent's `ask` and `consequences`, which
-- put a question to a backend.
pub mod Prelude
pub mod Base
pub mod Program
pub mod Solve
pub mod Syntax
pub mod Query
pub mod Tests
