-- ===== src/Crawl.antt =====
-- internal/crawl: the worker that drains the queue.
mod Examples
pub mod Failure
pub mod Worker
pub mod Walk
pub mod Loop
