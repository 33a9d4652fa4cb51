-- ===== src/Http/Endpoint.antt =====
-- The HTTP endpoint: class endpoint of include/mgxx/endpoint.hpp, include/mgxx/http/endpoint.hpp,
-- src/endpoint.cpp and src/http/endpoint.cpp, over the state of Http.Endpoint.State.
pub mod State
pub mod Register
pub mod Tls
pub mod Wakeup
pub mod Message
pub mod Events
pub mod Once
