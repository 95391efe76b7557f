-- ===== src/TokenService.antt =====
-- token_service/: a caller of the API Gateway gets the virtual key of his user.
pub mod Issue
pub mod Identity
pub mod Handler
