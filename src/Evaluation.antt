-- ===== src/Evaluation.antt =====
-- packages/default/src/derivations/utils.rs and models/: how a commit of a flake is evaluated.
pub mod Flake
pub mod Policy
pub mod Jobs
