-- ===== src/Lib.antt =====
-- A model of AfriPay's backend and browser wallet, with theorems about it: payments in XLM on
-- Stellar's test network and payments over MTN MoMo's sandbox.
--
-- The parts and where they are:
--
-- Stellar/Amount, Stellar/Validation: backend/src/stellar/payment-validation.ts. `stroops` is a
-- function on UTF-16 code units into a result; its regular expression is `is_decimal`.
-- `parse_payment` makes the tests of `parsePayment` in their order. The Stellar SDK is the
-- parameter Stellar.Sdk.Sdk.
-- Stellar/Service, Stellar/Accounts, Stellar/Soroban, Stellar/Build: the methods of
-- backend/src/stellar/stellar.service.ts that submit and verify, read and fund accounts, call
-- Soroban, and prepare a payment; the state of the first is the list of the hashes handed to
-- Horizon.
-- Stellar/Routes: backend/src/stellar/stellar.controller.ts.
-- Payments: backend/src/payments. Payments/Memory is PaymentIntentStore without a database and
-- Payments/Postgres the same store with one; both fill the interface Payments.IntentStore, which
-- Payments/Service, PaymentIntentService, takes as an argument. Payments/Postgres/Worlds and
-- Payments/Postgres/Stores relate the service over one to the service over the other.
-- Payments/History is the step relation of the store and the network.
-- Momo: backend/src/momo. Momo/Memory is MomoTransactionStore without a database, Momo/Postgres
-- the same store with one, and both fill Momo.MomoStore; Momo/Config, Momo/Auth, Momo/Service and
-- Momo/Webhook are the files with these names, Momo/Wire what the service exchanges with the
-- provider.
-- Guards: backend/src/auth. Ussd: backend/src/ussd. Rates: backend/src/rates. Payments/Requests and
-- Momo/Requests: the controllers, which check a body and call the service.
-- Wallet: frontend/src/lib/wallet.ts and the hook frontend/src/hooks/useNativeWallet.ts; Wallet/Idle
-- is the timer of the hook.
-- Browser/Sign: `signTransactionXdr` of frontend/src/lib/stellar.ts; Browser/Sign/Prepared joins
-- `buildNativePayment` of the server to it, Browser/Sign/Submitted joins it to `parsePayment` of
-- the server, and Browser/Sign/Flow is the three in a row.
-- Browser/Send: SendFlow.tsx and usePendingPayment.ts of frontend/src/components/wallet. A handler
-- that awaits is a function up to its request and one from the answer on; Browser/Send/Screen has
-- the steps of these over the buttons that are shown, and Browser/Send/Page the runs, in which a
-- status check may be answered late. Browser/Print, Browser/Format:
-- amounts of frontend/src/lib/format.ts; Browser/Address: its addresses; Browser/Dates: its days. Browser/Access:
-- WalletProvider.tsx and WalletGate.tsx of frontend/src/components/wallet with the forms of
-- frontend/src/components/onboarding; Browser/Access/Runs has the runs, in which a call of the
-- wallet takes its time. Browser/Request: ReceivePanel.tsx, and Browser/Activity: ActivityList.tsx
-- of frontend/src/components/wallet. Browser/Account: the loading of the account in
-- WalletProvider.tsx. Browser/Api: frontend/src/lib/api.ts. Browser/Theme: frontend/src/lib/theme.ts.
-- Base: Booleans, lists, JavaScript strings and maps, errors, and actions. Tests: runs on concrete
-- data.
--
-- A method that changes state is an Action: it takes the state and returns a result, a value or an
-- error, and the new state, so what was written before a throw stays written. The service is a
-- client of the store: PaymentIntentService binds a hash in the store before StellarService hands
-- the transaction to the network, and MomoService saves a record before it asks the provider.
-- Errors keep the source's class and message; the parts of a message that name an id are left out.
-- Identifiers that are drawn at random and readings of the clock are arguments. Answers of Horizon
-- and of the provider are functions from the request to the answer, or to none where the request
-- fails, and are arguments of each call. `Number(a) === Number(b)` is a parameter on texts, and
-- `Number(a) <= 0` of a decimal text is that it has no digit but 0. Numbers are natural; the
-- expiry of a token that would be negative is 0, which is past as well, and where the balance of
-- an account is compared, what the source subtracts stands on the other side. The digits of a
-- number are printed on fuel, one more than the number, which has fewer digits than that; every
-- other recursion is on a list or counts down.
--
-- A database statement is one step on tables of rows; what a NUMERIC column prints, and the order
-- of a sorted answer, are parameters, and so is what the columns of the MoMo table take. In the
-- flow of a payment the storage of the browser always takes what is written, the open address stays
-- the same, and the page is left only by loading it anew; a request that outlives its page is not
-- modelled.
--
-- Not modelled: what the stores load and check at start-up, health, timers and module wiring, and
-- what the frontend renders. The service of MoMo is modelled with each call run
-- to its end before the next; the steps of Payments/History interleave.
pub mod Base
pub mod Stellar
pub mod Payments
pub mod Momo
pub mod Guards
pub mod Ussd
pub mod Rates
pub mod Wallet
pub mod Browser
mod Tests
