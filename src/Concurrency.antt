-- ===== src/Concurrency.antt =====
-- src/libs/concurrency: the queues between the threads.
pub mod Fifo
pub mod Spsc
pub mod Threads
pub mod Mpsc
mod Tests
