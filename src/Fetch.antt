-- ===== src/Fetch.antt =====
-- fetch/: the headers of a request or a response, and the method of a request.
pub mod Request
pub mod Headers
pub mod Ordered
