-- ===== src/Example.antt =====
-- The example program of the repository, examples/simple/src/main.cpp: its handlers, what its threads
-- answer, and how it sets its endpoint up.
pub mod File
pub mod Handlers
pub mod Threads
pub mod Main
pub mod Delivery
pub mod Routes
