-- ===== src/Lib.antt =====
-- Claude Code Proxy: a proxy that lets the users of an organisation call Amazon Bedrock through the
-- API of Anthropic. A token service gives each user a virtual key; the proxy checks the key, the
-- policies, the quota and the rate of requests, resolves the model, and translates between the two
-- APIs. An administration API manages users, keys, budgets, routes and prices.
--
-- The files and the code that they model, by its path in the repository:
--   Domain             models/domain.py, models/context.py: the records
--   Errors             models/errors.py: ServiceError, its constructors and envelopes
--   ErrorResponses     api/errors.py: the HTTP response for an exception
--   RateLimiter        proxy/rate_limiter.py: `check` takes the clock's reading and the state, and
--                      returns the decision and the state after it
--   Policy             proxy/policy_engine.py: `evaluate` and its parts, under their own names
--   Glob               fnmatchcase of Python's standard library, on which policies and aliases rest
--   Quota              proxy/quota_engine.py: `evaluate` and its parts
--   Resolver           proxy/model_resolver.py: `resolve`, `find_alias_rule`, `find_route`
--   Keys               security/keys.py, security/encryption.py
--   VirtualKeys        repositories/virtual_key_repository.py: the cache over a DynamoDB table and
--                      the repository over the PostgreSQL store
--   Auth               proxy/auth.py, proxy/context.py: `authenticate`, `extract_virtual_key`
--   TokenService       token_service/: Issue (issue_service.py), Identity (identity.py) and Handler
--                      (handler.py)
--   Converse           proxy/bedrock_converse/: Response (response_parser.py), Stream
--                      (stream_decoder.py) and Request (request_builder.py)
--   Audit              proxy/audit_logger.py: `record_success`, `record_denial`
--   Router             api/proxy_router.py: Messages has the steps of `create_message` after the
--                      authentication (`serve`, `on_policy`, `on_quota`, `on_rate`, `forward`),
--                      CreateMessage the handler and `stream_with_audit`, CountTokens the other
--                      endpoint; the theorems stand in Admission, Served, Denials, Recorded,
--                      Unlimited and CountTokens.Counted
--   Admin              api/admin_auth.py and repositories/admin_identity_repository.py, and in its
--                      children api/admin_virtual_keys.py (VirtualKeys), admin_budget_policies.py
--                      (Budgets), admin_model_mappings.py (Models), admin_users.py with
--                      repositories/user_repository.py (Users), internal_ops.py, admin_usage.py and
--                      health_router.py (Operations); the theorems stand in Access, Writes,
--                      VirtualKeys.Lifecycle and Budgets.Thresholds
--   Observability      api/observability.py: `resolve_request_id` and the middleware
--   Json, Text         the JSON values and the text functions of Python that the program uses
--   Exec               exceptions, and actions on a world that may raise them
--   Prelude            lists, dictionaries, numbers and tests shared by all
--   Tests              the theorems at concrete inputs, and runs of the definitions
--
-- How the code is carried over. Code that calls a repository, a cache, a clock or a generator is an
-- action `W → Result A × W` on an abstract world `W`: what was done before an exception stays done.
-- The collaborators stand in records of actions (AuthRepositories, IssueServices,
-- TokenServiceHandlerDependencies, DynamoDbTable, ModelRepositories, ProxyDependencies,
-- LifecycleServices and others), and a theorem names what it
-- relies on of them. Nothing is assumed of what a DynamoDB table finds: a read may give an old item.
-- Times are microseconds as natural numbers. A float is a parameter: the interface `Floats` of Quota
-- gives its operations, and IsOrdered the laws of its order that the theorems need. The rate limiter
-- and the stream decoder are explicit state. A Python dict with text keys is an association list in
-- the order of insertion. A text is never bounded in length; whole numbers of Python are unbounded,
-- so there is no overflow. Every loop is recursion on its list or its text, without fuel, except for
-- the digits of a number in Text.Print, where the number itself is the fuel and is not less than its
-- count of digits.
--
-- Where the parser and the decoder ask for a member of what Bedrock documents as an object, the model
-- raises on anything else; Python raises there as well, except that `in` and iteration also work on
-- a text or a list. A raw stream is the list of what its iteration gives, an event or the exception
-- that it raises. It is run to its end: a consumer that stops early is not modelled. A frame is the pair of its event name and the JSON value that is printed into it.
--
-- The router calls the services through the record ProxyDependencies, which holds what they are built
-- from, so that `create_message` runs the code of Auth, Resolver, Policy, Quota, RateLimiter, the
-- builder and the parser themselves; the client of Bedrock is a parameter. A service that is not
-- configured (None) is not modelled there, except for the audit logger. `try ... except` is `attempt`,
-- which hands the exception on as a value. A list of pairs for `dict()` in the schema of a tool, which
-- Python accepts, is refused. A request that is audited without authentication keeps the name of its
-- model in printed form when it is no text.
--
-- Not modelled: the SQL of the PostgreSQL stores; the CDK infrastructure, the migrations, the scripts
-- and the set-up of FastAPI, which hold declarations rather than logic; what FastAPI does around an
-- endpoint (parsing and validating bodies, but for the validator of budgets, and encoding records).
pub mod Prelude
pub mod Observability
pub mod Router
pub mod Admin
pub mod Json
pub mod Errors
pub mod Exec
pub mod Domain
pub mod RateLimiter
pub mod Text
pub mod Glob
pub mod Policy
pub mod Resolver
pub mod Quota
mod Tests
pub mod Keys
pub mod VirtualKeys
pub mod Auth
pub mod TokenService
pub mod Converse
pub mod ErrorResponses
pub mod Audit
