-- ===== src/Lib.antt =====
-- MyTrackr backend: a verification library of its subscriptions, access checks, sessions, taxes,
-- reports and the categories of transactions.
--
-- The program is a NestJS server. Its core sells plans: a checkout stores a pending payment, the
-- gateway (Paystack) takes the money, and the payment is confirmed either by the user's return
-- (verifySubscriptionPayment) or by the gateway's webhook (handleWebhook). Both provision the plan in
-- the table of subscriptions. A worker starts queued plans, and every reading of a user's status does
-- the same for that user. All of this is src/payments/services/subscription.service.ts.
--
-- The modules, and the code that they are about:
--   Calendar: the Date setters that the code uses, in UTC, by the day numbers of ECMAScript.
--   Payments/Entities, Payments/Store: src/payments/entities and the repositories, as lists of rows.
--   Payments/Gateway: src/payments/interfaces, a parameter; extractPaystackSubscriptionDetails and
--     createOrFindPaystackSubscription.
--   Payments/Exec: requests that may throw; what was written before a throw stays written.
--   Payments/Status: getUserSubscriptionStatus, activateScheduledSubscriptionIfDue and
--     activateScheduledSubscriptionRecord.
--   Payments/Provision: provisionSubscription, calculatePeriodEnd and
--     repairPaystackSubscriptionCodeFromLookup.
--   Payments/Requests: verifySubscriptionPayment, handleWebhook, activatePaidIntegration and
--     cancelSubscription.
--   Payments/Worker: processScheduledSubscriptions and its lock in Redis.
--   Payments/Pricing: calculateSubscriptionCheckoutPricing and its helpers.
--   Payments/Checkout: initializeSubscription and updatePlanPrice.
--   Payments/Accounts: the checkout of a further bank account and assertCanLinkAnotherBankAccount.
--   Payments/History: sequences of requests and rounds of the worker.
--   Access/Entitlements: src/common/access-control/plan-entitlements.ts.
--   Access/Guard: src/common/access-control/guards/plan.guard.ts, on top of the status of a user.
--   Auth/Sessions: src/auth/services/session.service.ts and
--     src/common/redis/token-blacklist.service.ts.
--   Auth/Accounts, Auth/Accounts/Login, Auth/Refresh, Auth/Passwords:
--     src/auth/services/auth.service.ts: logging in, the exchange of tokens, the verification of a
--     registration and the passwords.
--   Reports/Treatment: src/common/accounting/accounting-treatment.ts.
--   Reports/Profit, Reports/Cash, Reports/Balance, Reports/Csv: src/reports/services, the profit and
--     loss statement, the cash flow statement, the balance sheet and the cells of their CSV files.
--   Auth/Mfa: src/auth/services/mfa.service.ts.
--   Mono/Entities, Mono/Identity, Mono/Cooldown: src/mono/transaction-identity.ts and
--     transaction-cooldown.ts.
--   Finance/Entities, Finance/Checks, Finance/Categorization, Finance/Results:
--     src/finance/services/categorization.service.ts, without the prompts.
--   Integrations/Delivery: src/integrations/services/integration-webhook.service.ts.
--   Integrations/Entities, Integrations/Ledger, Integrations/Events, Integrations/Tally,
--     Integrations/Metrics, Integrations/Paystack, Integrations/Keys:
--     src/integrations/services/integrations.service.ts: the rows that sales leave, ingestEvent,
--     getMetrics, the import from Paystack (Paystack/Sync and Paystack/Connection: the state of a
--     connection), and the API keys (Keys/Requests: the requests that come with one).
--   Tax: calculatePIT, calculateRentRelief and calculateCIT of src/tax/services/tax.service.ts.
-- Child modules hold the proofs, and Tests the runs at concrete inputs.
--
-- How the model stands to the code:
--   Row ids are numbers, and new rows get the next one. Instants are milliseconds since 1970, and all
--   readings of the clock in one request give the same instant `now`. The process runs in UTC.
--   Money is in whole hundredths with exact arithmetic, in place of doubles.
--   A text that is tested only for being there is an Option; `none` is null, undefined or empty.
--   The answers of the gateway are fixed during one request and may differ from one to the next. Its
--   calls are logged in the store, in order.
--   A request or a round runs to its end before the next one begins, so races between requests
--   are outside the model. The database does not fail.
--   Rows with equal createdAt or currentPeriodStart are taken in the order of the table.
--   `save` of a row that was read but not changed writes nothing new. Log messages are left out; an
--   upgrade's message reads the plan of the active row, which is taken to be there.
--   The outcome of InstitutionService.assertSupported, the stored fee setting, the count of linked
--   accounts and the metadata that the reflector reads are arguments.
--   Redis may be down during any operation on sessions; its failures are swallowed as in the code.
--   The statements read amounts in hundredths of either sign, margins as fractions, the runway in
--   tenths of a month, and a date column as the instant of its midnight. Texts that the code looks
--   into are lists of code points.
--   Texts of dates and numbers are what `Date` and `Number` read from them. The JSON text of a key is
--   the record of its parts, which it determines. Downloaded transactions carry an id.
--   The engines that predict categories are functions of what they are asked; a failure is no answer.
--   The rows of an ingestion are those that it hands to the repository, in reverse.
--   Tax rates are whole percents, so taxes are counted in ten-thousandths.
--   The integrations stand in the store of the payments, where activatePaidIntegration and the
--   partners' requests read and write them.
--   The check of a one-time password is an argument that gives no answer where otplib throws.
--   The dates of the rows that partners' sales and Paystack leave are cut to the day, as the column
--   does it. A deleted row of the ledger is hidden and keeps its external id, so saving it again throws.
--   The loop over the pages of Paystack has no bound of its own, so it takes fuel; the fuel is enough
--   when it is more than the pages before the first that is not full.
--   No other loop needs fuel except the search for a year, whose rounds are the days divided by 365, plus
--   one: every year has 365 days at least.
--
-- Not modelled: the HTTP clients, controllers, mail, storage, seeds and page rendering, which are
-- glue around libraries; the billing card functions, updatePlanCapabilities, the analytics, the
-- rest of the bank feed, uploads of statements, initializeCheckout of the
-- integrations, and administration.
pub mod Prelude
pub mod Calendar
pub mod Payments
pub mod Access
pub mod Auth
pub mod Finance
pub mod Integrations
pub mod Mono
pub mod Reports
pub mod Tax
