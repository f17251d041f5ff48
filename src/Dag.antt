-- ===== src/Dag.antt =====
-- DAG flows: chainweaver/flow/dag.py and `_compute_dag_levels` of chainweaver/executor.py.
mod Tests
pub mod Levels
pub mod Topology
pub mod Branch
pub mod Group
pub mod Run
