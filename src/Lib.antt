-- ===== src/Lib.antt =====
-- Stello Kitchens, the core of a restaurant platform: what a bill costs, how running bills are
-- merged, moved and split, which coupons apply, what a subscription allows, how raw materials are
-- ordered, what the staff are paid, how a floor is laid out and a slip is printed.
--
-- The program. packages/shared holds the pure rules that the API, the point of sale and the edge
-- device share. apps/api holds the services that apply them to the rows of a database, in
-- transactions: OrdersService (apps/api/src/orders/orders.service.ts) and OrderOpsService
-- (apps/api/src/billing/order-ops.service.ts) act on running bills and call computeBill,
-- allocatePaise and splitLinesEqually for every amount.
--
-- The modules. Money is packages/shared/src/money.ts: toPaise, fromPaise, lineTotalPaise and
-- computeOrderTotals. Billing is packages/shared/src/billing.ts: Bill is computeBill, Allocate is
-- allocatePaise, SplitEqually is splitLinesEqually, Window is parseHHMM and isWithinWindow.
-- Coupon is evaluateCoupon of packages/shared/src/coupon.ts. Subscription is the subscription
-- lifecycle, the plan limits and saasInvoiceAmounts of packages/shared/src/growth.ts, and
-- Subscription/Platform transition and platformAction of
-- apps/api/src/saas-billing/billing.service.ts. Permissions is hasPermission, missingPermissions
-- and isOwnerLevel of packages/shared/src/platform.ts. Procurement is
-- packages/shared/src/procurement.ts: Units, PurchaseOrders and Reorder.
--
-- Orders is the running bills. Rows has the records of the tables orders and order_items, and the
-- errors; Store the reads and writes by id and the checks requireOrder, lockOpenOrder,
-- assertNotSplit and assertMergeable; Totals billFor and recomputeTotals; Merge, Transfer, Split
-- and Void the operations merge, transfer, split, unsplit, setServiceCharge, cancel and
-- closeSplitParentIfDone; Preview is resolveDiscounts and preview; Punch is punchItems and Create
-- is create, addItems, ingestAggregatorOrderTx and ingestScanOrder; Settle is settle, which calls
-- the bill's totals, GiftCards for payments by card, the drawer, and Loyalty for points; Closed
-- is about all of them. A transaction is a function from the rows to a Result: an exception is an
-- err, and it changes nothing. An operation that reads before it locks takes the rows of that
-- read as an argument of their own, seen, so that other transactions may run in between.
--
-- Numbers. A rupee amount is a number of ten-thousandths of a rupee, an amount in paise a whole
-- number, a percentage a number of hundredths, a material quantity a number of thousandths (in
-- Procurement/Reorder, of billionths): every quotient that the source rounds is then exact, and
-- Math.round is round_div of Prelude/Rounding, a half going up. Integers, where the source clamps
-- a negative amount, are those of Prelude/Int. The source computes with floating-point numbers;
-- their representation error is not modelled. Texts are lists of character codes, ids are
-- numbers.
--
-- Hr is packages/shared/src/hr-accounting.ts: Attendance is computeDayAttendance, Month
-- summariseMonth, Payslip computePayslip, Accounts expenseCost and buildPnl; days are counted in
-- halves. Foh is packages/shared/src/foh.ts: Floor is floorLayoutIssues, Reservations the
-- transitions and intervalsOverlap. Printing is wrap, pad, columns and leftRight of
-- packages/shared/src/printing/layout.ts.
--
-- GiftCards is apps/api/src/gift-cards/gift-cards.service.ts: issue, void, redeemGiftCardsTx and
-- issueStoreCreditTx on cards with their ledger. Loyalty is
-- apps/api/src/loyalty/loyalty-otp.service.ts and the customers' points. Their columns with two
-- decimals are in paise.
--
-- Edge is the numbering of offline bills in packages/shared/src/edge.ts; the year and the month
-- of an instant in India are arguments.
--
-- Every loop of the modelled code is structural recursion over a list, but for the hard breaks of
-- a long word in Printing, whose fuel is the length of the word, of which each round takes at
-- least one character, and the digits of a number n in Edge, whose fuel is n + 1. Parameters
-- stand for the platform's text and date functions: the time of a date text (Date.getTime) in
-- Coupon, the instant of a date and a time of day (istAt, a call of Date.UTC) in Hr, the key of a
-- table's name (trim and toLowerCase) in Foh, a date a year or a month later (setUTCFullYear,
-- setUTCMonth) in Subscription/Platform, toUpperCase and trim in Preview, Settle, GiftCards and
-- Loyalty, and in Printing the normalisation of a text (normalizeReceiptText of codepages.ts).
--
-- Not modelled: the user interfaces, the edge device and the printer connector, the network and
-- the realtime notifications, authentication, and the services that only read and write rows. Of
-- the orders service, combos and synchronisation are left out, and the channel's price of an item
-- is an argument; notifications and events are I/O.
pub mod Prelude
pub mod Service
pub mod Money
pub mod Billing
pub mod Coupon
pub mod Orders
pub mod Subscription
pub mod Permissions
pub mod Procurement
pub mod Hr
pub mod Foh
pub mod Printing
pub mod GiftCards
pub mod Loyalty
pub mod Edge
