-- ===== src/Executor/Step.antt =====
-- `_execute_step` of chainweaver/executor.py for a step that invokes a tool. Each function below is
-- one phase of the method, and ends in an early return or in a call of the next phase.
pub mod Decision
pub mod Permits
pub mod Frame
pub mod OnError
pub mod Body
