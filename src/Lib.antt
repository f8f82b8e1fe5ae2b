-- ===== src/Lib.antt =====
-- MixT runs transactions that mix data of several consistency levels. The C++ templates under
-- transactions/mtl typecheck a transaction, infer a label for each of its expressions and split it
-- into a phase for each label; the runtime under transactions/tracker makes a phase wait for the
-- writes that its predecessors depend on. This library models flattening, label inference, the
-- insertion of tracking, the split and the tracker.
--
-- Labels (transactions/mtl/top.hpp, transactions/mtl/label_utilities.hpp). Labels/Order.antt is
-- the interface of the concrete labels with min_of and max_of, and Labels/Pgsql.antt fills it with
-- the labels of transactions/pgsql/SQLLevels.hpp. Labels/Term.antt has the labels of the
-- typechecker: concrete ones, temporary ones (temp_label) and minima (label_min_of), with
-- can_resolve() and resolve(). Labels/Meaning.antt says what a label stands for under an
-- assignment of concrete labels to the temporary ones, Labels/MinMax.antt has the laws of minima
-- and maxima, and Labels/Replace.antt models label_replace of transactions/mtl/replace_label.hpp.
-- A C++ type is a value here, and a template that does not compile is `none`.
--
-- Ast (transactions/mtl/AST_typecheck.hpp). Ast.antt has the trees, Ast/Labelled.antt and
-- Ast/Surface.antt predicates on them: a surface tree is one that the typechecker builds, before
-- tracking inserts its nodes. Ast/Queries.antt models
-- transactions/mtl/contains_improper_labels.hpp and transactions/mtl/contains_min_ofs.hpp, and
-- Ast/Collect.antt the collection of labels in transactions/mtl/collect_proper_label.hpp, with its
-- proofs in Ast/CollectLaws.antt.
--
-- Inference (transactions/mtl/label_inference.hpp). Constraints.antt collects the constraints of a
-- tree (collect_constraints), Collapse.antt takes the minima out of them, Replace.antt puts a
-- concrete label in place of a temporary one through a tree, and Solve.antt is the solver:
-- replace_all_less_than, infer_labels_helper1, infer_labels. Flow.antt states the flow discipline
-- by itself, as rules over concrete labels. FlowLaws, CollapseLaws, ReplaceLaws, Turn, Raised,
-- TurnSteps, TurnLaws, Between, SolveLaws, SolveFuel, Complete, CompleteLaws and Preference hold
-- the proofs. Sorting and the removal of duplicates belong to the mutils submodule, which is not
-- in the repository: the record TypeLists states what is used of them, and Lists.antt fills it
-- with an insertion sort. The solver's recursion is not structural; it runs on one unit of fuel
-- more than there are constraints, since each call drops one constraint. resolve() runs on one
-- unit, since its recursive branch is never taken. The typesets of mutils and the sorting of
-- labels are parameters as well (LabelSets in Ast/Collect.antt, and an argument of infer_labels);
-- what the theorems on the solver need of the sorted labels is among their hypotheses.
--
-- Tracker (transactions/tracker). Clock.antt models Ends.hpp and Ends.cpp, Client.antt
-- ClientTracker.hpp and Tombstone.cpp, Server.antt Tracker.cpp and
-- Tracker_private_declarations.hpp; Waiting.antt has writeTombstone and find_tombstones, and
-- Reading.antt the two loops of ClockManager.cpp as interleaved steps. ClockLaws, ClientLaws,
-- Handover, ServerLaws, Commits, WaitingLaws and ReadingLaws hold the proofs. A clock's components
-- are unbounded integers, as the operations only compare them. A store is an association list from
-- names to tombstones, of which a call takes the state and returns the next one; whether the store
-- raises a collision in an attempt of accompanyWrite, which clock updateClock reads, and the
-- stores that the rounds of find_tombstones see are arguments. Times are milliseconds in signed 64
-- bits, which wrap around. A failed assert is `none` or `failed_assert`. The bound of a 64-bit
-- name is stated where a name is made.
--
-- Split (transactions/mtl/split_phase.hpp). Split/NamedTree.antt has the trees with names at
-- loops, and Split/Named.antt the pass that names them (transactions/mtl/name_while.hpp).
-- Split/Tree.antt has the tree of one phase and Split/Collapse.antt the collapse of its sequences
-- (transactions/mtl/AST_split.hpp); Split/Api.antt models what a phase requires, provides and
-- inherits (transactions/mtl/split_phase_utils.hpp, transactions/mtl/split_phase_impl_utils.hpp).
-- The overloads of _collect_phase are collect_phase in Split/CollectPhase.antt, with its lets in
-- Split/LetPhase.antt, and collect_phase_expression in Split/CollectExpression.antt;
-- Split/Placement.antt chooses among those that differ in the label. Split/RemoveUnused.antt and
-- Split/RemoveEmpties.antt prune the tree (transactions/mtl/remove_unused.hpp,
-- transactions/mtl/remove_empties.hpp), and Split/Computation.antt puts a phase together for each
-- label: split_computation, with transactions/mtl/without_names.hpp. Split/Effects.antt is the
-- specification: what the program does at a label, and what the tree of a phase does, each effect
-- with the branches and loops around it. EffectLaws, LetEffects, Isolation, PhaseEffects,
-- PruneLaws, ComputationLaws, SplitLaws and Completeness prove that they agree; Requires, Supply
-- and SupplyLaws are on what phases require of each other; NamedLaws, CollapseLaws and
-- PlacementLaws hold the rest. The searches of mutils::typelist (BindingLists in Split/Api.antt),
-- the sets of mutils::typeset (TypeSets in Split/TypeSets.antt) and the sorting of the labels are
-- parameters; Split/TestSets.antt fills them for the examples. That the C++ templates of a phase's
-- nodes ask for certain types, as of a condition or an assignment, is not modelled: the tree of
-- the typecheck phase has them already.
--
-- Tracking (transactions/mtl/insert_tracking.hpp, transactions/mtl/writes_remote.hpp).
-- Tracking/WritesRemote.antt asks whether a transaction assigns to a remote object,
-- Tracking/Insert.antt puts an accompanying write behind each such assignment at a strong label,
-- and Tracking/Choice.antt chooses the labels that are tracked and puts the tombstones in front of
-- the transaction. InsertLaws and ChoiceLaws hold the proofs. The sets of mutils::typeset are the
-- parameters NameSets and TrackedSets, and the proper labels of the tree are an argument.
--
-- Flatten (transactions/mtl/flatten_expressions.hpp). Flatten/Tree.antt has the tree of the parse
-- phase (transactions/mtl/AST_parse.hpp); a name is the list of its characters, as mutils::String
-- has them, and a generated one is spelled as the code spells it. Flatten/RemoveLayer.antt models
-- remove_layer, which binds the innermost operation of an expression to a new name in front of a
-- statement, Flatten/FlattenExprs.antt flatten_exprs, and Flatten/DesugarWhile.antt desugar_while
-- and the whole pass. Flatten/Hoisting.antt says what remove_layer takes out as a relation, with
-- its proofs in Hoisting/Cases.antt; Flatten/Flat.antt what a flat tree is, with its proofs in
-- Flat/Flattened.antt; Flatten/Room.antt how much of seqnum and depth a tree needs, with its
-- proofs in Room/Targets, Remotes, Chain, Fits, Total and Desugared; and Flatten/Meaning.antt what
-- a tree does when it runs, over any objects and operations (the record Objects), whose operations
-- may change the store as statements; one in an expression has a meaning where it changes none.
-- Its proofs are under Meaning: Scope and Fresh on names, Weakening, RunWeakening and Untouched on
-- names that a statement does not use, Layers, Targets, Bound, Calls and CallChains on what is
-- bound in front, Steps, Helpers, Overloads and Flattened on flatten_exprs, Loops and Source on
-- desugar_while and the whole pass. flatten_exprs runs on fuel, one unit for each nested call; a
-- tree's room counts the calls, and 126 is the room that chars have.
--
-- Parser. Parser/Allocator.antt models the slots of SingleAllocator in
-- transactions/mtl/new-parsing/allocator.hpp as a list of Booleans, and Parser/Objects.antt the
-- allocator of one type with the objects in its slots, its move, and references to the objects
-- (allocated_ref.hpp and array.hpp beside it); an array is a list, and a failed assert on an index
-- `none`. Parser/AllocatorLaws.antt has the laws of the slots, and Parser/ObjectLaws.antt those of
-- an allocator as a map from references to objects.
--
-- Not modelled: the typechecker itself, whose trees are taken as given; the parsers, of which one
-- is generated and one works on compile-time strings; endorsement; the merge of phases of one
-- label (recollapse.hpp), which only the printing and running of phases use; the interpreters of
-- phases, which send environments serialised by the mutils submodule to other stores; the stores
-- and the network, which are input and output.
--
-- Each component has a module Examples with concrete runs.
pub mod Base
pub mod Labels
pub mod Ast
pub mod Inference
pub mod Tracker
pub mod Parser
pub mod Split
pub mod Tracking
pub mod Flatten
