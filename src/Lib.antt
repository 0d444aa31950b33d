-- ===== src/Lib.antt =====
-- nest-order-api: an HTTP API for customers and their orders (NestJS, TypeORM, PostgreSQL).
--
-- The program. A controller checks the user's role and the request's body, and calls a service. The
-- services read and write customers and orders through the ORM, inside the context of the current
-- user, which stamps the audit columns and decides who sees an order. A change of an order's status
-- emits an event, which the notification part publishes as a message; a consumer sends an e-mail for
-- it. Both services share one search, which turns the filters of a request into a query of the ORM.
-- What a handler throws is translated to a response by one filter, which masks sensitive fields.
--
-- The files, with the source that they model (paths from the root of the repository):
--   Values, Effects      the values of the language that the model needs, and handlers as functions of
--                        the state that return or throw; a state that was written stays after a throw
--   Errors               src/common/exceptions: ErrorCode, DomainException and its three kinds
--   Errors/Filter        GlobalExceptionFilter.catch (`translate`)
--   Sensitive            src/common/security/sensitive.decorator.ts: maskSensitive, maskSensitiveDeep,
--                        maskEmail
--   StringUtils          src/common/util/string-utils.ts
--   Audit                src/common/audit: the context of the user (`Store`), the interceptor, the
--                        audit columns and the subscriber
--   Auth                 src/common/auth: JwtStrategy.validate, RolesGuard.canActivate
--   Crud                 src/common/crud/abstract-crud.service.ts
--   Money                amounts in hundredths, their texts, and decimal.js as an interface
--   Customer/Entity, Customer/Request, Customer/Lock, Customer/Service, Customer/Controller
--                        src/customer: one definition for each method of CustomerService and for each
--                        route of CustomerController
--   Order/Status, Order/Entity, Order/Event, Order/Request, Order/Guards, Order/Service,
--   Order/Controller     src/order: Order.calculateTotal, Item.subtotal, ALLOWED_TRANSITIONS, the
--                        private checks (Guards), one definition for each method of OrderService and
--                        for each route of OrderController
--   Orm                  the repositories, the entity manager and transactions, as an interface
--   Orm/Laws             the documented behaviour of the ORM that the services rely on
--   Http/RateLimit       src/common/http/rate-limit-tracker.ts
--   Http/RequestId       src/common/http/request-id.middleware.ts, request-context.ts
--   Search/Column, Search/Value
--                        src/common/filter/filter-value.ts: kindOf, coerceFilterValue
--   Search/Criteria      parseQueryFilters of src/common/filter/search.service.ts, with operator.enum.ts
--                        and search-limits.ts
--   Search/Query         applyFilter of search.service.ts: the query as data, with its parameters
--   Search/Service       search and executeSearch of search.service.ts, search-request.dto.ts,
--                        page-response.util.ts
--   Customer/Search, Order/Search
--                        the searches of the services and their routes
--   Patterns             the regular expressions of the source, as tests on a text
--   Fallible             chains of results without a state
--   Config               src/config/env.config.ts
--   Notification/RecentMessageIds, Notification/Consumer, Notification/Publisher, Notification/Email,
--   Notification/Connection
--                        src/notification: recent-message-ids.ts, rabbitmq.consumer.ts,
--                        rabbitmq.publisher.ts with order-status.listener.ts, email.service.ts, and
--                        amqp-connection-manager.ts
--   Notification/Consumer/Overlap
--                        rabbitmq.consumer.ts with several messages under way, a step at a time
--   App                  a history of requests to both controllers, one after the other
--   App/Pipeline         src/app.module.ts, src/bootstrap/configure-app.ts, jwt-auth.guard.ts: what an
--                        HTTP request passes on its way to a controller, and its response
--   Health               src/health/health.controller.ts
--   Concurrency          the transactions of OrderService.create and CustomerService.delete when they
--                        overlap, a statement at a time (docs/adr/0004-customer-row-locking.md)
--   Examples             an exact decimal, rows in memory that satisfy the laws of the ORM, and the
--                        theorems at concrete inputs
-- The modules below a component hold its proofs: Order/Service/Effect says what a method can do to the
-- database (nothing, or one write of one of four kinds), Changes and Methods show that each method does
-- one of these, and Consistent, History, Events and Customer/Service/Unique draw the consequences.
--
-- The state of the services is `World`: the database of the ORM interface, and the list of emitted
-- events. A method takes the current user (`Store`), the time and the state, and gives a result and a
-- state. A request runs as a whole before the next one, except in Concurrency; a transaction that
-- throws leaves the database as it was. Times and ids are opaque numbers and texts. A search reads
-- only, so it is a result for a database. In App/Pipeline the state is the server's: the world and the
-- buckets of the throttler. In Concurrency it is the committed rows and, for each of `n` transactions,
-- where it stands; a transaction holds its lock from its first statement to its end, and writes
-- with its last one. The consumer handles a message as a whole, except in
-- Notification/Consumer/Overlap, where an event is a delivery or the end of a sending or of a
-- backoff. How the sending ends, and whether the channel at each of the calls is the one that
-- delivered the message, another one or none, are given from outside (`Circumstances`). The error
-- of a body that the parsers refuse is given with the request.
--
-- Bounds. An order has at most 200 items, a price at most 1,000,000.00 and a quantity at most 10,000,
-- as in src/order/order.constants.ts; with these a sum stays below the 20 digits that decimal.js keeps.
-- A filter has the limits of search-limits.ts, and an offset fits 32 bits. The fuel of the consumer's
-- queue is the number of deliveries that its messages can still have, four for a new one. The
-- other fuels are `load`, the events that messages handled at the same time can still see; the rounds
-- of the consumer's connecting, enough once one round comes in which all calls succeed; and that of
-- the decimal digits of a number, the number itself and one more, enough since each digit divides by
-- ten.
--
-- Parameters. The ORM (`Orm`, `OrmLaws`), decimal.js (`Decimal`), the reflector of the framework,
-- the validators of UUIDs and e-mail addresses and the verification of a token are arguments. A
-- price of a request is a number of hundredths, since the validation admits two decimals. The ORM's
-- answer to a query (`Repository`, `RepositoryLaws`), `ILIKE` (`LikeLaws`), `Date.parse`,
-- `JSON.parse` and `JSON.stringify`, `Number`, `toUpperCase`, nodemailer, the template of the
-- e-mail and the random UUIDs are arguments too, as are the sizes of a page that the configuration
-- sets, the throttler's counting and the table of the row locks (`LockTable`). The type of a
-- token's preferred name, which the program does not check, is a parameter of `validate`; the
-- pipeline takes it as a text, as OpenID Connect has it.
--
-- Not modelled: the template of the e-mail, the schema and its migrations (src/database),
-- injection, security headers, CORS and what the body parsers accept, and the scripts; a close of
-- the connection between two calls of the consumer's loop. Of the requests that overlap in time
-- only the two that lock a customer's row are modelled, with writes of orders beside them, since
-- the others rely on what the database does with stale entities. Messages that overlap are modelled
-- while the channel stays open.
pub mod Common
pub mod Values
pub mod Errors
pub mod Sensitive
pub mod Effects
pub mod Auth
pub mod Audit
pub mod Money
pub mod Customer
pub mod Order
pub mod Orm
pub mod Crud
pub mod StringUtils
pub mod Patterns
pub mod Fallible
pub mod Search
pub mod Concurrency
pub mod Config
pub mod Notification
pub mod Http
pub mod Health
pub mod App
mod Examples
