-- ===== src/Algo.antt =====
-- pkg/algo: the algorithms of the runtime.
pub mod GreedyMesh
mod Tests
