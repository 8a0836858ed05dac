-- ===== src/Http.antt =====
-- src/http_replay: the processor of HTTP responses, which is fed with the data of a response as it
-- arrives.
pub mod Numbers
pub mod ContentLen
pub mod Chunked
pub mod Header
pub mod Response
