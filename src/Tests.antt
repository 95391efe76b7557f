-- ===== src/Tests.antt =====
-- The theorems at concrete inputs, and tests of the definitions by evaluation.
mod RateLimiter
mod Policy
mod Resolver
mod Quota
mod Fixtures
mod Auth
mod VirtualKeys
mod TokenService
mod Converse
mod Request
mod Audit
mod Router
mod Served
mod Recorded
mod Kept
mod Build
mod Admin
mod Writes
mod Observability
