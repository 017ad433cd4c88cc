-- ===== src/Lib.antt =====
-- The Griya Maya manga server.
--
-- The server keeps a catalog of media, chapters and pages in D1, the objects of the pages in R2, the
-- tokens of its OpenID provider in D1 and KV, and two queues of jobs. All of them are remote.
--
--  * Effect: a computation passes a state and a list of the outcomes of the coming calls. A call is
--    answered, refused (no effect) or lost (the effect without the answer); past the list it is
--    answered. A property over all lists of outcomes is a property under every pattern of failures.
--    Effect.Laws reads postconditions, Effect.Steady the runs in which no call fails.
--  * Text, FilePath: what the code uses of Go's strings and path packages, on code points; letters
--    are lowered in ASCII.
--  * Domain: the types of internal/domain.
--  * Cloud, Repo: the tables, and the statements of internal/repository/d1/media_repo.go and
--    job_repo.go on them. A statement with a constraint is refused where the constraint fails.
--  * Service: internal/service/media_service.go. Ports holds the queues of internal/cleanup and
--    internal/covermirror and the addresses of internal/repository/r2; Covers, Reading, Feed, Media
--    and Deletes hold the operations, Cleanup the scheduling of orphaned objects.
--    SubTypes: internal/service/subtype_service.go.
--  * Worker: internal/cleanup/cleanup.go with the deletion of internal/repository/r2/store.go (Cleanup,
--    Bucket) and internal/covermirror/covermirror.go (Covers).
--  * Pipeline: the service and the worker together.
--  * Oidc: the tokens of internal/oidc/storage.go (Store, Refresh, Tokens), the consents of consent.go
--    (Scopes, Consent) and the gate of middleware.go (Gate). Claims puts the statements of concurrent
--    requests in any order.
--    Users, UserAdmin and Registration hold user.go, user_admin.go and register.go, with Reply for the
--    answers of their handlers; Clients and Dcr hold client.go, seed.go, the lookups of clients and
--    dcr.go; Requests, Login and Userinfo hold the authorization requests of models.go and storage.go,
--    login.go, user information and introspection. Requests.Provider is the state of them all, and a
--    computation on a part of it is lifted by zoom.
--  * Connections: internal/service/connection_service.go with its table, the pending authorizations in
--    KV, the endpoints of internal/domain/connection.go and the posts of internal/repository/oauth
--    (Url, Table, Flow), and the search of connection_search.go (Suggestions, Search).
--  * Server: the routes of internal/server/router.go with their gates.
--  * Tests: concrete inputs.
--
-- The parts meet in the state: a delete of the service removes rows and puts a job on the queue, and
-- the worker takes a job and removes objects; a registration adds the account that a sign-in finds, and
-- consent records the scopes that the next sign-in compares. A handler runs to its end before the next
-- one, save where a module says that their calls interleave (Oidc.Claims, Oidc.UserAdmin.Interleaved).
--
-- Bounds: the deletion in batches runs on fuel, the number of keys, and each batch takes at least one
-- of them; a number is printed on fuel, itself plus one, and each digit divides it by ten. Instants are
-- in nanoseconds and columns in seconds. The expiry of a connection and the offset of a page wrap around
-- at 64 bits, and SQLite takes a negative offset for 0 and a negative limit for none. A chapter's
-- number, a float in the code, is read as a natural number (in a fixed unit), since only its order is
-- used.
--
-- SQL leaves the order of rows with equal sort keys open; the feeds keep that of the table. The pattern
-- test LIKE is an argument.
--
-- Not modelled: HTTP, JSON and SQL texts, the texts of errors and the logs, the image codecs, the
-- WebAuthn and OpenID libraries with the passkeys of internal/oidc/webauthn*.go, the endless loops of
-- the workers around one round, the configuration, the handlers of internal/handler, the services of
-- sources, ads, taxonomies, conversion, video and novels. AES-GCM, the hashing of passwords and its
-- check with their format in internal/oidc/util.go, the answers of outside servers, the signing of R2
-- addresses, the verification of access tokens, fresh identifiers and readings of the clock are
-- arguments.
pub mod Base
pub mod Text
pub mod FilePath
pub mod Effect
pub mod Domain
pub mod Cloud
pub mod Repo
pub mod Service
pub mod Worker
pub mod Pipeline
pub mod Connections
pub mod Oidc
pub mod Server
pub mod Tests
