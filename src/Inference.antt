-- ===== src/Inference.antt =====
-- Label inference (transactions/mtl/label_inference.hpp, transactions/mtl/replace_label.hpp).
pub mod Replace
pub mod ReplaceLaws
pub mod Constraints
pub mod Satisfied
pub mod Flow
pub mod FlowLaws
pub mod Collapse
pub mod CollapseLaws
pub mod Solve
pub mod Turn
pub mod Raised
pub mod TurnSteps
pub mod TurnLaws
pub mod Between
pub mod Complete
pub mod SolveLaws
pub mod SolveFuel
pub mod CompleteLaws
pub mod Preference
pub mod Lists
pub mod Examples
