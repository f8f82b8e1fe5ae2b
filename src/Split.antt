-- ===== src/Split.antt =====
-- The split of a transaction into phases (transactions/mtl/split_phase.hpp and the files that it
-- includes).
pub mod NamedTree
pub mod Named
pub mod NamedLaws
pub mod Tree
pub mod Api
pub mod Collapse
pub mod Placement
pub mod CollectExpression
pub mod LetPhase
pub mod CollectPhase
pub mod CollapseLaws
pub mod Effects
pub mod EffectLaws
pub mod LetEffects
pub mod Isolation
pub mod PhaseEffects
pub mod TypeSets
pub mod RemoveUnused
pub mod RemoveEmpties
pub mod PruneLaws
pub mod Computation
pub mod ComputationLaws
pub mod Requires
pub mod Supply
pub mod SupplyLaws
pub mod PlacementLaws
pub mod Completeness
pub mod SplitLaws
pub mod TestSets
pub mod Sample
pub mod Examples
