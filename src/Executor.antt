-- ===== src/Executor.antt =====
-- chainweaver/executor.py with chainweaver/_execution/context.py.
pub mod Samples
mod Tests
pub mod Types
pub mod Merge
pub mod Inputs
pub mod Gate
pub mod Invoke
pub mod Step
pub mod Result
pub mod Linear
pub mod Resume
pub mod Safety
