-- ===== src/MergeMining.antt =====
-- src/merge_mining.rs: RSK merge mining beside the Bitcoin work. `Types` has the state, `Context`
-- the bounded tables of templates and job bindings, `Bindings` the operations that the rest of the
-- client calls, `Commitment` the rules of RskJ, `Template` the change of a template, `Observer`
-- the worker that turns shares into found jobs, `Pair` the desired pair and the API handlers.
pub mod Types
pub mod Commitment
pub mod Context
pub mod Bindings
pub mod Template
pub mod Observer
pub mod Pair
pub mod Session
mod Examples
