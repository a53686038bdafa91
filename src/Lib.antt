-- ===== src/Lib.antt =====
-- A verification library for the API of the hotel booking platform (apps/api/src) and the shared
-- package that it uses (packages/shared/src): the inventory of rooms, the life of a booking, who may
-- do what with it, and the catalogue of properties and rate plans.
--
-- The parts of the program and the files that model them:
--   * Schema: the tables of apps/api/prisma/schema.prisma, as one record of lists (Db).
--   * Dates: `toDate` and `nightsBetween` of the booking code, and `Date` as they use it.
--   * RateRules: packages/shared/src/rate-rules.ts, the bit mask of week days.
--   * Schemas: packages/shared/src/booking.ts, the tests on the bodies of forms and AI tools.
--   * Availability: apps/api/src/modules/availability/availability.service.ts. Nights is the loop
--     over a stay, Pricing is `priceStay`, Inventory the SQL of `countAvailableRooms` and
--     `reserveAvailableRoom`, Search is `computeAvailability`.
--   * Redis, Cache: the commands of Redis as an interface; apps/api/src/cache/cache.service.ts and
--     the cached `search` over it.
--   * Notifications: apps/api/src/modules/notifications/notifications.service.ts, the rows and the
--     queue.
--   * Bookings: apps/api/src/modules/bookings. StateMachine is booking-state-machine.ts; Create,
--     Assign, Transition and Reading are the operations of bookings.service.ts; Create/Codes has also
--     apps/api/src/common/confirmation-code.ts. Safety is the inventory invariant and what each
--     operation does to it. Controller is bookings.controller.ts: each route as its guards, its
--     handler and the interceptor, in the order in which Nest runs them.
--   * Http, Audit: what the code reads of a request, with apps/api/src/common/action-context.ts; the
--     interceptor of common/audit and common/filters/all-exceptions.filter.ts.
--   * Auth: apps/api/src/auth. Subject is auth-user.ts; Tokens and Access are token.service.ts, the
--     refresh tokens and the signed ones; Passwords is password.service.ts; Lockout is
--     auth-lockout.service.ts; Otp is otp.service.ts; Service is auth.service.ts and Controller
--     auth.controller.ts, with `browserFetch` of apps/web/lib/api.ts in its Browser. Guards composes
--     the guards that run before a handler, one of which, Scope, is guards/property-scope.guard.ts.
--   * Ai: apps/api/src/modules/ai. Webhook is hmac-signature.guard.ts, Service is ai.service.ts.
--   * RatePlans, Properties, Guests, Rooms: apps/api/src/modules/rate-plans, modules/properties,
--     modules/guests with modules/devices, and modules/rooms.
--   * Idempotency: apps/api/src/common/idempotency/idempotency.service.ts.
--   * Mobile: apps/mobile/lib/api.ts, the client that refreshes its tokens and tries once more.
--   * Common: Boolean tests, lists, results of fallible code and texts, for all of them.
--   * Examples: a small hotel on which every theorem with hypotheses is applied.
--
-- How the code corresponds to the model. An operation on the database is a function from Db to a
-- Result; a throw is `err` with the exception's class and message, and a transaction that throws
-- leaves the database as it was. `create` reserves a room for each requested room
-- (`reserve_available_room`), prices it (`price_stay`), writes the booking under a fresh code and a
-- notification row in the same transaction; after the commit it enqueues the notification and
-- bumps the version of the property's cache. `assignRoom`, `transition` and `block` are single
-- steps on the same tables; Transition has `transition` in two steps too, its check and its
-- transaction. The rooms that other transactions have locked are a parameter of the
-- reserving query. A login reads and writes the lockout counters in Redis, the tables of tokens and
-- codes and the audit log, which are one state (`State`); its handler answers in the body or in
-- cookies, and what a browser then sends passes the guards (`admit`) in the order in which the
-- application registers them. The AI tools act on a booking through a token that a one-time code
-- earns, and then through the same `cancel` as everybody else.
--
-- Numbers: identifiers and instants are natural numbers, prices are minor units; a sum that does
-- not fit a 32-bit column is refused, as the database client refuses it. A loop over nights is
-- bounded by the days that fit into the stay and one more, which is more than the loop makes. The
-- retries of a confirmation code are the five of the source.
--
-- Parameters: the wall clock of the host (`local_time`), the collation of room numbers
-- (`precedes`) and of names, the draws of randomInt, randomBytes and randomUUID, whether a failed
-- statement aborts a transaction (`aborts`; PostgreSQL does), the store of Redis, whose documented
-- laws are the hypotheses of Redis.Laws (Redis/Memory is a concrete store for the examples),
-- SHA-256, scrypt, HMAC-SHA256, what `Number` reads of a text, the pattern of an e-mail address, the
-- full-text query of the search for properties, the API as the mobile client sees it, the browser's
-- choice and the encoding of cookies (Auth.Controller.Browser.BrowserLaws), and the JWT library, which
-- signs an object under a secret and counts whole seconds: the laws that the code relies on are those
-- of Auth.Access.JwtLaws.
--
-- Not modelled: the user interfaces (apps/web, apps/staff, and apps/mobile but for its client), the
-- normalisation of texts and the security headers of packages/shared, the rate limits of routes, the
-- controllers that only pass their calls on behind the guards, the wiring of the application, the
-- snapshots of rows in the audit log, images and amenities, and the columns that no modelled code
-- reads.
pub mod Common
pub mod Schema
pub mod Dates
pub mod RateRules
pub mod Availability
pub mod Redis
pub mod Cache
pub mod Idempotency
pub mod Mobile
pub mod Notifications
pub mod Bookings
pub mod Rooms
pub mod Auth
pub mod Http
pub mod Audit
pub mod RatePlans
pub mod Guests
pub mod Properties
pub mod Schemas
pub mod Ai
pub mod Examples
