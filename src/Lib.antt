-- ===== src/Lib.antt =====
-- Verification of the IoT server.
--
-- The server keeps sessions of users, devices and applications in Valkey, speaks an encrypted protocol
-- with its clients, guards its routes by a casbin policy, and sells access to services by subscription.
-- These files model the parts below as functions and state theorems about them.
--
--   Prelude        names, tests, lists and numbers that the other files share
--   Http           exceptions as values, and methods that change a state and may raise
--                  (app/shared/exceptions.py, app/shared/session/exceptions.py)
--   Valkey         the commands of the server, as an interface with the documented laws; Valkey/Memory is a
--                  server that meets them
--   Session        app/shared/session: repository.py is Repository (entity sessions), UserSessions and
--                  RateLimit; security.py is Security; service.py is Validation and Service; models.py is
--                  Models; the theorems are in Consistency, History, Requests and Tokens
--   RateLimit      app/shared/rate_limit.py with the counters of the repository; theorems in Window
--   E2e            app/shared/crypto.py (Crypto), app/shared/e2e/session.py (SessionStore),
--                  app/shared/e2e/middleware.py (Middleware), app/domain/auth/service.py (Login); the theorems
--                  are in Traffic, Renewal, Handshake and Resolution; Routes is app/domain/auth/controller.py,
--                  Password the change of a password of app/shared/auth/service.py, and Account its route; Changed is
--                  about the login after it
--   Client         http/e2e.py: the login command (Client, with the server in Connected), requests and
--                  responses (Requests), the test blocks (Runner), their execution (Execute, Run), and what
--                  a run reports (Verdict, Report)
--   Policy         app/shared/authorization and app/domain/policy: the enforcer (Policy), the routes (Admin)
--                  and the seeding (Seed); theorems in Explicit and Changes
--   Payment        app/domain/payment: tables (Rows), the service (Service), the assignment routes (Assign) and
--                  those of subscription types and histories (Catalog); theorems in Extend, Access, Deposits,
--                  Listed and Assign
--   AesCbc         app/shared/services/cryptography; theorems in RoundTrip
--   Webhook        app/domain/webhook: endpoints (Webhook) and the attempts of a delivery (Delivery); theorems in
--                  Events and Delivery
--   Onboarding     app/domain/onboarding: service.py on the tables of the login, and Routes, its controller.py;
--                  theorems in Verified
--   Xmss           app/shared/middleware/auth/auth_xmss: challenge.py, with the methods of device.py, application.py
--                  and human.py in Adapters; theorems in Path, Verify, Halt and Forgery
--   Crud           app/shared/base_domain: repository (Crud), service (Service; Refinement compares the two),
--                  the audit log (Audit) and the pages of a listing (Paging)
--   Access         app/domain: the views that decide which services, roles, users, devices and applications
--                  an account sees (Views, Listing, Counting), the assignment routes (Assign) and tickets
--                  (Tickets); theorems in Listing/Agree, Effects, Removal and Tickets
--   Personal       app/domain/personal_data: the CURP (Curp, with its check digit in Curp/Digit and its
--                  acceptance in Curp/Accepted), birth dates (Birth), e-mail addresses (Email), creating and
--                  deleting a person over three tables (Accounts, with Stored) and changing one (Update); and the
--                  MAC address of a device (Mac)
--   Puzzle         app/shared/middleware/auth: the puzzle and its check (Puzzle, Verified), the authentication of
--                  devices and applications (Gate), the passwords of humans (Human) and the manager of the
--                  handlers (Manager)
--   Patch          the fields of a PATCH payload
--   Schema         app/database/model.py with the columns and relationships of every table (People, Things, Records,
--                  all of them in Declared), app/database/__init__.py (Start), and the migration
--                  alembic/versions/dd0913759ae6_baseline.py (Baseline), run by Migration on the catalog of a
--                  database, which changes as Engine says; theorems in Restart, Drift, Migration and Relations
--   App            app/main.py and app/shared/middleware/tenant.py: the middlewares around the routes, with the
--                  middleware of the encrypted protocol; theorems in Layers
--   Tests          concrete stand-ins for the libraries, and the theorems at concrete inputs
--
-- How the parts meet: the middleware reads the sessions that the login makes, through SessionStore; the
-- session service runs on the repository; the limiter counts in the same Valkey server; the policy routes
-- stand behind the permission that the policy itself decides.
--
-- State is passed explicitly. A method takes the state and returns a result and the new state; what was
-- written before a raise stays written. A method of the session code takes the second at which it runs, and
-- all its commands run at that second; interleavings of methods are written as sequences of their parts.
-- Random values, new ids and nonces are arguments. Datetimes are seconds, and in Payment they carry whether
-- they have a time zone; one clock value serves one payment. Numbers are unbounded, as Python's are.
--
-- Libraries are parameters with laws that their documentation states: Valkey, JSON, base64, HMAC, HKDF,
-- AES-GCM, AES-CBC, JWE, casbin, and Python's methods on texts. Constant-time comparison is equality. The
-- one loop that is not structural is the tree of Xmss, which runs on fuel; the number of leaves is given,
-- since a level has at most half the nodes of the one below it, rounded up.
--
-- Not modelled: the command line of the client, the signature of a webhook, telemetry and MQTT, scripts,
-- settings, and the wiring of the framework but for the order of the middlewares. Those are input and
-- output, or stand apart from the rest. Of the views, a join is given by its list of rows.
-- Logging is left out everywhere.
pub mod Prelude
pub mod Valkey
pub mod Http
pub mod Session
pub mod RateLimit
pub mod E2e
pub mod Client
pub mod Policy
pub mod Payment
pub mod Xmss
pub mod Access
pub mod AesCbc
pub mod App
pub mod Crud
pub mod Onboarding
pub mod Patch
pub mod Personal
pub mod Puzzle
pub mod Schema
pub mod Webhook
pub mod Tests
