-- ===== src/Lab0.antt =====
-- lab0: Queue.antt is lab0/queue.go, Semaphore.antt lab0/semaphore.go, Fetcher.antt
-- lab0/parallel_fetcher.go; Merge.antt, Cancel.antt and Fetches.antt are lab0/merge_channels.go.
pub mod Queue
pub mod Semaphore
pub mod Merge
pub mod Cancel
pub mod Fetches
pub mod Fetcher
mod Tests
mod FetchTests
