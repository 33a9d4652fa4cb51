-- ===== src/Http.antt =====
-- The HTTP layer: namespace mgxx::http.
pub mod Headers
pub mod Status
pub mod AsyncStream
pub mod AsyncResponse
pub mod Certificate
pub mod Connection
pub mod Request
pub mod AsyncRequest
pub mod Response
pub mod Endpoint
pub mod Safety
pub mod Delivery
pub mod Producer
pub mod Numbers
pub mod Lost
pub mod Isolation
