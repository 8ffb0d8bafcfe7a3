-- ===== src/Queue/Tasks/Claims.antt =====
-- What a dequeue guarantees (src/agent_crew/queue.py, dequeue).
pub mod Taking
pub mod Serving
pub mod Ordering
