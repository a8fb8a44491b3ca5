-- ===== src/Lib.antt =====
-- A verification of the ticketing platform: NestJS services that hold seats, book them, take
-- payments, refund them and deliver events. Paths are from the repository's root.
--
-- The parts and how they interact. The seat inventory service keeps one row per seat of an event, a
-- hold per seat that a user has reserved, a lock per seat in Redis, and a read model of the seats'
-- statuses in Redis. The booking service keeps bookings, tickets and an outbox; it asks the payment
-- service for payments and refunds and the seat service for releases and sales by gRPC, and two workers resume
-- what has been left half done: one the refunds, one the events of the outbox. The event service keeps
-- venues and events, and tells the seat service of a new event by Kafka. The authentication service
-- keeps users and refresh tokens, and its access tokens pass the guards of the other services. The
-- gateway in front of them limits the rate of the requests.
--
-- Base holds the shared names. Base/Request is the monad of a request: state, exceptions, and a
-- script of replies. Each awaited call of a database, of Redis or of another service takes the next
-- reply of the script: it answers, it answers with `success: false`, or its promise rejects. After
-- the end of a script every call answers. A theorem over all scripts holds for every way in which
-- the calls of the request may fail. A throw keeps the state reached so far.
--
-- External holds what the program uses and does not implement, as records of operations with the
-- laws that their documentation promises: a TypeORM repository (External/Repository), the Redis
-- keys of the locks with their times to live (External/LockStore), the Redis hashes of the read model
-- (External/Hashes), the cached JSON values (External/Cache) and the sorted sets (External/SortedSets).
-- External/Memory, External/Cache and the tests have an instance of each, so that the laws can be met.
--
-- Seats models apps/seat-inventory-service/src:
--   Seats/Types         the entities and enums of hold/ and inventory/, and the state of a request
--   Seats/Locks         inventory/seat-lock.service.ts: lockSeats is lock_seats, releaseSeats is
--                       release_locks, and so on; Keys, Locking, Exclusion, Progress and Releasing
--                       prove
--   Seats/Transactions  the query runner of the services: writes are staged and committed
--   Seats/Availability  cqrs/availability-read.service.ts; a parameter of the platform says which
--                       commands of a pipeline fail, whose results the code does not read
--   Seats/Inventory     inventory/inventory.service.ts
--   Seats/ReadModel     the queries of cqrs/availability-read.service.ts and rebuildCache; Totals,
--                       Rebuilding, Agreement and Calls prove
--   Seats/Opening       createFromEvent and inventory/inventory.consumer.ts; Once proves
--   Seats/Holds         hold/hold.service.ts: holdSeats, releaseSeats and markAsSold; Holding,
--                       Atomicity, Exclusion, Rollback, Releasing and Publishing prove
--   Seats/Grpc          inventory/inventory.grpc-controller.ts: verifyHold is verify_hold, and the
--                       handlers that answer with a success flag; Verifying proves
--   Seats/Expiry        hold/hold-expiry.worker.ts; Grouping and Closing prove
--
-- Booking models apps/booking-service/src:
--   Booking/Types       the entities and enums of booking/ and ticket/
--   Booking/Tickets     ticket/ticket.service.ts
--   Booking/Refund      cancelBooking and processRefundStateMachine of
--                       booking/booking-orchestrator.service.ts; Diagram is its diagram, and Steps,
--                       Rounds, Completion, Failures and Cancelling prove
--   Booking/Creation    createBooking, persistBooking and confirmBookingWithOutbox of the same file;
--                       Guards, Payment and Confirmation prove
--   Booking/Recovery    booking/refund-recovery.worker.ts
--   Booking/Delivery    booking/outbox.worker.ts; Retries and Progress prove
--
-- Payments models apps/payment-service/src/payment:
--   Payments/Types      the entities, enums and the dto
--   Payments/Gateways   gateways/: withRetry is with_retry; what the Stripe library answers to each
--                       attempt is an argument
--   Payments/Charging   payment.service.ts; Once and Outcomes prove
--   Payments/Refunding  refund.service.ts and refundPayment of payment.grpc-controller.ts; Once and
--                       Again prove
--
--   Payments/Idempotency  idempotency/idempotency.interceptor.ts, a step for each stretch between two
--                       awaits; Once and Replay prove
--
-- Auth models apps/auth-service/src:
--   Auth/Types          the entities, the dto, the payload, and what the service uses of bcrypt,
--                       SHA-256, UUIDs and JWT
--   Auth/Users          user/user.service.ts
--   Auth/Tokens         login, refresh, logout and generateTokens of auth/auth.service.ts; Refreshing
--                       and Sessions prove
--   Auth/Accounts       registration, verification and reset of the same file; Verifying and Resetting
--                       prove
--
-- Events models apps/event-service/src:
--   Events/Types        the schemas and dtos of venue/ and event/
--   Events/Venues       venue/venue.service.ts; Capacity proves
--   Events/Creation     event/event.service.ts; Seating, Guards and Opening prove, Opening about the
--                       message at the seat inventory service
--
-- Guards models libs/auth-guard/src: canActivate is can_activate, with a text as the list of its
-- characters' codes; Splitting, Bearer and Sessions prove, Sessions about the token of a login.
--
-- Gateway/RateLimit models apps/api-gateway/src/rate-limit/rate-limit.interceptor.ts for one key;
-- Window, Bound and Refinement prove.
--
-- Notices models apps/notification-service/src:
--   Notices/Types       the entity, the messages and the ids of the templates
--   Notices/Sending     notification/notification.service.ts, with templates/template.engine.ts and
--                       channels/email.adapter.ts; Recording proves
--   Notices/Consumers   consumers/; Mailing proves
--
-- Correspondence. A service is the state that its methods share, a method is a function into the
-- monad, a loop over a list is a recursion on the list, and the loop of the refund machine is a
-- recursion on the rounds left, of which there are five as in the source. An entity that a method
-- changes in memory and saves later (the booking of the refund machine, the entry of the outbox
-- worker) stands in the state, so that a handler of an exception sees its changes. Ids, and texts
-- that are only copied or compared, are natural numbers; prices are in cents and times in
-- milliseconds. A key of a lock is the pair of its event and its seat. An error is a constructor
-- with what its message interpolates. Logs are left out. The clock stands still within a request.
-- A rejected call has not had its effect, except that a request to another service counts as sent.
--
-- What the methods of `Date` compute from the local clock, with the configured number of days added as
-- it is, is a parameter of the authentication service, and so is which commands of a Redis pipeline
-- fail. The unique index of the seat inventory rejects an insert that would repeat a seat; an
-- insert that repeats another unique column is a rejected reply of the script.
--
-- The interceptor of the payments is cut at its awaits, so that the steps of several requests may
-- interleave in any order; the other services are modelled a request at a time. `Math.ceil` is a
-- recursion on as many rounds as there are milliseconds, which is enough since each round but the last
-- takes a thousand of them. The loop of the Stripe gateway runs on the attempts left, as in the source.
--
-- Not modelled: the proxy of the gateway, the HTTP controllers, which only pass their
-- arguments on, the validation of the dtos, the queries that only return a collection, the generated
-- gRPC code, and the modules and entry points, which hold no logic of the program.
pub mod Base
pub mod External
pub mod Seats
pub mod Booking
pub mod Payments
pub mod Auth
pub mod Events
pub mod Guards
pub mod Gateway
pub mod Notices
