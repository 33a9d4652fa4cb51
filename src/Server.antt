-- ===== src/Server.antt =====
-- The server: struct logger, event_manager_logger, register_logger, the constructors, start, stop, poll
-- and listen_http of include/mgxx/server.hpp and src/server.cpp, and setup of src/endpoint.cpp.
pub mod Logger
pub mod Lifecycle
