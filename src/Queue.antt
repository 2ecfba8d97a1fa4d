-- ===== src/Queue.antt =====
-- src/queue: the queues of a process, enqueueing, schedules and the Redis connection.
pub mod Registry
pub mod Enqueue
pub mod Connection
pub mod Scheduler
pub mod Options
pub mod Events
