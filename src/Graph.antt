-- ===== src/Graph.antt =====
-- The graph engines: src/josu/graph.
pub mod Router
