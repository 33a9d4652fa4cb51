-- ===== src/Tests.antt =====
-- The theorems at concrete inputs, by the part of the library that they are about.
mod Samples
mod Texts
mod Answers
mod Wakeups
mod Running
mod Pending
mod Producing
mod Refusals
mod Routes
mod Copies
mod Certificates
mod TlsMaterial
mod Examples
mod Stopping
mod Requests
mod Closed
