-- ===== src/Lib.antt =====
-- simtrader's Worker (workers/src, TypeScript on Cloudflare Workers): sign-in with BudgetApp ID
-- tokens, sessions in KV, administration of users over Postgres, identity events from BudgetApp, and
-- the research API.
--
-- How the parts interact. A request passes a guard (a session in KV, an engine key, or an ID
-- token), then a handler runs SQL statements and KV calls. The token verifier is shared by sign-in,
-- the research API and the identity events; it keeps a cache of the issuer's keys. Sessions are
-- entries under their tokens, with a list of tokens for each user, so that a suspension, a deletion
-- or an identity event can end all of them.
--
-- Which file models which part:
--   Json               values of unknown shape, `typeof` tests, property access, truthiness
--   Jwt, Jwt/Parse, Jwt/Claims, Jwt/Keys, Jwt/Verify
--                      workers/src/lib/sso-jwt.ts: parseJwtParts, the claim checks, fetchJwks and the
--                      candidate keys, verifyIdToken
--   Jwt/Policy, Jwt/Soundness, Jwt/Coverage, Jwt/Separation, Jwt/Cache
--                      the policy for tokens, and what is proved about the verifier
--   Kv                 the KV namespace, an interface with laws
--   Session            workers/src/lib/session.ts: createSession, validateSession, destroySession,
--                      destroyAllUserSessions; Session/Keys, Lookup, Tracking and Runs have its
--                      theorems
--   Http, World        handlers with early answers and exceptions; the state that a request works on,
--                      with service calls that may fail
--   Database           the tables of alembic/versions; Database/Accounts has the SQL statements about
--                      accounts, Database/Erasure what a deletion leaves
--   Issuers            workers/src/lib/issuers.ts; Issuers/Trust has its theorem
--   Audit              workers/src/lib/audit.ts
--   Events             workers/src/lib/identity-events.ts; Events/Route is
--                      workers/src/routes/identity-events.ts; Outcomes and Erasure have the theorems
--   Access             workers/src/middleware/auth.ts: sessionMiddleware, requireAuth, requireAdmin, and
--                      the guard of /admin in workers/src/index.ts; Access/Admission and
--                      Fresh have the theorems
--   Admin              the POST handlers of workers/src/routes/admin/users.ts; Admin/Effects, Barring and
--                      Isolation have the theorems; Admin/Listing is its GET handlers, with a theorem
--                      in Listing/Pagination, and Admin/Dashboard workers/src/routes/admin/index.ts
--   AuditLog           workers/src/routes/admin/audit-log.ts; AuditLog/Csv is the text of the export and
--                      a reader for it; RoundTrip and Export have the theorems
--   Site               workers/src/index.ts: the routes under /admin behind their guard, the health
--                      check, the dashboard; Site/Reading and Guard have the theorems
--   Tokens             workers/src/lib/auth.ts: generateToken and toHex; Tokens/Digits has the theorem
--   Database/Client    workers/src/lib/db.ts: getDb
--   Pages, Ui          what the pages show, and the templates of workers/src/ui
--   Database/Queries   ORDER BY, LIMIT and OFFSET with the limits and pages of the query string;
--                      Newest and Pages have the theorems
--   SignIn             workers/src/routes/budgetapp-auth.ts: the flow and the exchange of the code;
--                      SignIn/Accounts maps a member to a user, SignIn/Callback is the callback;
--                      Accounts/Linking and Standing, Callback/Steps, SignedIn, Spent and Once have
--                      the theorems
--   Research           workers/src/middleware/research-auth.ts; Research/EngineKeys and
--                      Research/Signals are the POST and DELETE handlers of
--                      workers/src/routes/research/keys.ts and signals.ts; Research/Listings has their
--                      GET handlers; Research/Evaluations, Instruments and Portfolio are
--                      evaluations.ts, instruments.ts and portfolio-context.ts beside them; Research/Router
--                      is workers/src/routes/research/index.ts; Admission, Revocation, Validity,
--                      Creation, Listing, Upsert, Registry, Disclosure and Router/Guard have the
--                      theorems
--   AuthRoutes         workers/src/routes/auth.ts and the redirect of / in workers/src/index.ts;
--                      AuthRoutes/Logout has the theorem
--   Base               shared names, lists, texts, integers and results
--   Tests              test data, runs of the definitions, and the theorems at concrete inputs
--
-- Modelling decisions. Times are in seconds, and in milliseconds where the source has them so. A
-- JSON number is an integer that counts ten-thousandths; finer fractions are left out. What
-- JSON.stringify wrote, JSON.parse reads back, so KV holds values. Base64 decoding, JSON parsing
-- of a token, the network, the cryptography, URL resolution and random values are parameters. The
-- KV namespace is an interface: reads see the writes before them, entries expire when their time
-- is over; the delay between locations is left out. A SQL statement, a transaction, and any other
-- function of session.ts each run whole or throw without an effect; any of them may throw, as the
-- state says. In the callback the two writes of createSession fail apart; Session/Runs is about
-- functions of session.ts that ran whole. Requests do not interleave. No definition needs fuel:
-- every loop runs over a list or a text, and decimal digits are produced by recursion on Acc.
--
-- Not modelled: the library of the database client and the platform's random generator, the pages
-- of sign-in errors and of /goodbye, the browser's side of the scripts, and the Python package and
-- migrations beside the Worker. A failure of Postgres on an id that is no UUID is, where it is not
-- written out, one of the failures that the state may hold. Postgres's order of UUIDs and texts,
-- its reading and writing of times and its ILIKE are arguments; rows of equal times come in the
-- table's order. Ids are compared as texts: another spelling of a UUID, which Postgres takes for
-- the same, names nobody here. An address is any text; Postgres refuses one that is no INET, as
-- getIp's 'unknown'. trim, toUpperCase and toLowerCase are those of ASCII. The keys of a JWKS are
-- objects with text members, as their RFC has them; an entry that is null would throw.
pub mod Base
pub mod Json
pub mod Jwt
pub mod Kv
pub mod Http
pub mod Database
pub mod Pages
pub mod AuditLog
pub mod Site
pub mod Ui
pub mod World
pub mod Access
pub mod Admin
pub mod SignIn
pub mod Research
pub mod AuthRoutes
pub mod Issuers
pub mod Audit
pub mod Session
pub mod Events
pub mod Tokens
pub mod Tests
