-- ===== src/Lib.antt =====
-- The money paths of the shop backend: what customers are charged, what stores hold in stock, what
-- wallets contain, and who books which appointment; and who governs a group chat, who earns from a
-- store's publication, and how many requests get through. The program is a Django service; its rows are
-- tables here, and a request is a function from the rows to a result and the rows it leaves.
--
-- The modules, and the code that they model:
--   Prelude, Exec, Table: shared. `Exec S A` is code that reads and writes rows of type `S` and may
--     raise; `atomic` is `transaction.atomic()`, which restores the rows when an exception leaves
--     the block and keeps them when a value, also a refusal, is returned. `Table` has the `get` and
--     `save` of a model.
--   Money: apps/core/money.py (`normalize_money`), `_quantize` and `_money`, and
--     `validate_payment_amount` of apps/payment/core.py, on decimals with their exponents.
--   Wallet: apps/wallet/models.py and `WalletCore` of apps/wallet/core.py. `transfer` is
--     `WalletCore.transaction`.
--   Cart: apps/cart/services.py with the models it reads. Rows has the tables, Catalog the checks
--     of items, Discounts those of codes and automatic discounts, Pricing the prices, Snapshot
--     `snapshot_order`, Inventory `reserve_order_inventory`, `release_order_inventory` and
--     `confirm_order_inventory`.
--   Reserve: apps/reserve/services.py. Slots has `expire_stale_holds` and `available_slots`,
--     Booking `hold_reservation`.
--   Affiliate: apps/affiliate/services.py, the accrual of commissions and, in Lifecycle, their
--     schedule, release and reversal.
--   Payment: apps/payment/core.py. Rows joins the tables of the other parts; Processing has
--     `payment_process`, `complete_order` and `_release_order`, Verify has `verify`, Wallets has
--     `wallet_process`, Sessions and Pay have `pay`, and Reconcile has
--     `reconcile_stale_payment_sessions`.
--   Appointments: `refund_paid_reservation` of apps/reserve/lifecycle.py and the cancelling of
--     apps/reserve/views/user/reservation.py.
--   Referral: apps/referral/services.py and its models.
--   Review: `review_market_publication` of apps/market/services.py.
--   Chat: the members of rooms in apps/chat/services.py and apps/chat/models.py. Creation has
--     `create_chat_room`, Membership the operations on a group, of which Moves is the abstract
--     machine, and Groups what holds of every group that they can make. Steps has the binds.
--   Login: the one-time codes of apps/users/views/user_views.py, created and verified, over a cache
--     as the interface `OtpCache`.
--   RateLimit: apps/core/rate_limit.py, over the commands of the server as the interface
--     `CounterStore`, whose laws are the documented behaviour of these commands.
--
-- How the parts interact: checkout prices an order (Cart.Snapshot); a payment reserves its stock
-- and discounts (Cart.Inventory), takes money from a wallet (Wallet) or waits for the gateway
-- (Payment.Pay, Payment.Verify), then confirms the order and books the commissions (Affiliate), or
-- releases what was reserved. A reconciliation calls `verify` for each stale session. A store's
-- publication looks for its completed payment (Review) and books the commissions of the inviters
-- (Referral). A cancelled appointment goes back to the wallet (Appointments, Wallet).
--
-- Conventions. Prices are thousandths of a toman; wallet amounts and the money of appointments are
-- toman, as the columns have them. A write past the 18 digits of a wallet raises `data_error`; the
-- digits of the other money columns are not bounded here, and products of money are taken to have
-- at most the 28 digits that Python's decimals keep. Identifiers, and texts that are only compared,
-- are numbers, with 0 for the empty text. Times are seconds, and the clock, the settings, the time
-- zone, the gateway's answer, the identifiers of new rows and the rounding that a money column makes
-- are arguments. Row locks make concurrent transactions follow one another: a call is one step. A
-- row of the gateway's sessions that breaks a unique constraint raises `constraint_error`.
--
-- Fuel: the `while` loop of `available_slots` runs on one more than the seconds of the opening
-- interval, which is enough for every service whose appointments take at least a minute; the
-- normalization of a decimal runs on its coefficient, since each round divides it by ten.
--
-- Not modelled: rescheduling and reminders of appointments, payouts of commissions, the creation of
-- users and their profiles, chat messages, the parsing of rates and the cart's views; and the parts
-- with no logic of this kind, such as notifications, analytics, the profile pages and the web
-- framework's settings.
pub mod Affiliate
pub mod Appointments
pub mod Cart
pub mod Chat
pub mod Exec
pub mod Login
pub mod Money
pub mod Payment
pub mod Prelude
pub mod RateLimit
pub mod Referral
pub mod Reserve
pub mod Review
pub mod Table
pub mod Wallet
