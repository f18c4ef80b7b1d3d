-- ===== src/Lib.antt =====
-- Orders, money and trading days of the coffee shop's point of sale.
--
-- The program is an API over one database (apps/api), with a shared package of money arithmetic
-- (packages/shared). The order service takes orders on the trading day that is open, prices their
-- lines, completes them with payments and takes them back with void rows; the trading-day service
-- opens and closes days, keeps the cash movements between, and at a closing works out the drawer from
-- the payments, tips and change of the day's orders with the shared money functions. The two meet in
-- the database only.
--
-- Which file models what:
--   Base, Number, Failure, Text, Date: lists, options and integers; the rounding of doubles; the
--     exceptions that the services throw; strings; business dates (parseBusinessDate, toDateOnly),
--     with the proofs in Date/Printing.
--   Money: packages/shared/src/money.ts, one function each; Money/Sums, Lines, Suggestions and Cash
--     hold the proofs.
--   Store: the rows of apps/api/prisma/schema.prisma as records, and all tables as the record Db.
--     Store/Calls: a request is a function from the database to a result and a database; transaction
--     rolls back, catch_unique is the handler of P2002, throw_if a guard. Store/Queries: the lookups
--     that services share, with apps/api/src/sales/cashier-selection.service.ts. Store/Rules: proof rules.
--   Orders: apps/api/src/orders/orders.service.ts. Amounts is calculateLineAmounts, Tender is
--     validateTender, Rows the reads and writes of one row, Orders itself create, listParked and the
--     frame mutateParked, Lines the changes to a parked order, Completion complete, void and
--     settleChange; Requests is the service as one type of requests, and their schedules. The other
--     files below Orders are proofs.
--   TradingDay: apps/api/src/trading-day/trading-day.service.ts. Input is the request bodies and their
--     checks, Cash is calculateCash, Movements recordCashMovement and amendCashMovement, TradingDay
--     itself open and close; Requests the service as one type. The other files are proofs.
--   Auth: apps/api/src/auth. Throttle is auth-attempt-throttle.service.ts, with its map of buckets (Dict, the
--     program's Map); Throttle/Invariant and Lock are proofs. Users holds the lookups of
--     apps/api/src/users/users.service.ts and the platform (hashes, tokens, ids as text) as arguments;
--     SignIn and SignIn/Requests are auth.service.ts, in two halves around the wait for the hash;
--     SignIn/Lockout, Overlap and Admission are proofs.
--   Inventory: apps/api/src/inventory. Packaging is packaging-reconciliation.service.ts, Counts and
--     Counts/Input stock-counts.service.ts, Movements stock-movements.service.ts; the other files are proofs.
--   Reporting: apps/api/src/reporting/reporting.service.ts. Daily is the query of loadDailyReadModel, one
--     function for each of its sums, and the reports on it; Sums and Agreement are proofs.
--   Journal: apps/api/src/journal/journal.service.ts, with Journal itself for ledgers, balances and
--     suggested amounts, RateInput and Rates for updateRate and getRate, Deposits for deposits and
--     withdrawals, Missing for getMissingDays; Balance, Deposits/Bulk, Rates/InForce and Rates/Past
--     are proofs, Store/Journal the rows.
--   Tests: concrete data, and an example of each theorem that has hypotheses.
--
-- Interleaving: every changing request takes an argument `others`, the change that other requests
-- commit between its first reads and the moment at which it holds its row lock. From then on its reads
-- and writes run without interruption, which is what the row locks are for. A void waits a
-- second time, for the lock on the day, with the order locked: `closing` is what others commit then, which in a
-- schedule does not void that order. A schedule runs whole other schedules in these places. A unique violation is raised by the insert that meets it.
--
-- Numbers: amounts are integers, and the sums, differences and products of Money and of the prices and change of an
-- order are rounded to the nearest double, where the search for the spacing has fuel 64, enough below 2^117; a
-- quotient is rounded before its floor is taken (Number/Quotient). Sums over stored rows are not rounded: the
-- columns are 32-bit, so they stay far below 2^53. Ids and times are natural numbers, in place of UUIDs and
-- timestamps, and what the database and the clock supply is the argument `Supply`.
--
-- Not modelled: the mapping of rows to responses, the decorators that check request bodies before a
-- handler, and the services for items, restock, compensation, catalog, scheduling and staff; of the reports,
-- those on products, expenses and past orders; cookies and guards. The packaging lines that a closing stores
-- are an argument of its definitions, for which Inventory has the program's. The web application is user interface.
pub mod Base
pub mod Dict
pub mod Number
pub mod Failure
pub mod Money
pub mod Text
pub mod Date
pub mod Store
pub mod Orders
pub mod TradingDay
pub mod Auth
pub mod Inventory
pub mod Reporting
pub mod Journal
pub mod Tests
