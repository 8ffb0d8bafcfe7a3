-- ===== src/Queue/Tasks.antt =====
-- The life of a task (src/agent_crew/queue.py): its row, the claim, the dispatch and the start, the
-- way back to the queue, the cancellation and the result. Each method runs in one write
-- transaction; failures of the database itself are left out.
pub mod Row
pub mod Engine
pub mod Claim
pub mod Dequeue
pub mod Requeue
pub mod Defer
pub mod Cancel
pub mod Parking
pub mod Start
pub mod Results
pub mod Lifecycle
pub mod Claims
pub mod Stranding
pub mod Revocation
pub mod Expiring
pub mod Accepting
pub mod SingleUse
