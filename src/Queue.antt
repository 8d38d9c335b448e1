-- ===== src/Queue.antt =====
-- rag/graph_queue.py: the persistent queue of graph construction jobs.
pub mod Job
pub mod Enqueue
pub mod Worker
pub mod Single
pub mod Steps
pub mod Rows
pub mod Order
pub mod Events
