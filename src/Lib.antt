-- ===== src/Lib.antt =====
-- The decision logic of the GhostStake front end, with the contracts that it
-- sends to: the market, the lending pool and the stock-loan vault.
--
-- The front end (ghoststake-frontend/src) reads a parimutuel market, a lending pool, a stake vault
-- and a stock-loan vault from a chain, shows figures, and sends writes. Its pages take their
-- decisions from small modules in lib and from two hooks; those are what is modelled, one module
-- here for each:
--
--   Amount       lib/amount.ts, and sanitise and toDecimalString of components/AmountField.tsx
--   Claims       lib/claims.ts and hooks/useClaimAll.ts: the claim queue and a run over it
--   Transaction  hooks/useTransaction.ts: one form's writes, as a step function on events
--   Rounds       lib/rounds.ts: a round, its entry window, its quote and its split
--   Market       ghoststake-contracts/src/ParimutuelRound.sol: lockRound, resolveRound,
--                voidUnsettledRound, voidUnlockedRound, phaseOf, oddsOf, claimableOf and the guards
--                of openRound; Market/Custody has the money: takePosition, takePositionFor, claim,
--                withdrawFees, setRouter and a run of all calls
--   Env          lib/env.ts: the validators and the problems shown
--   Csp          lib/csp.ts
--   Markets      lib/markets.ts and hooks/useMarkets.ts
--   Reads        the batches that hooks send and take apart: useRounds.ts, useClaimables.ts,
--                usePositions.ts, useIsOperator.ts, useTerms.ts, useMarketFeeds.ts, useSpot.ts and
--                useStockLoan.ts of hooks
--   Pool         ghoststake-contracts/src/BorrowLiquidityPool.sol: the lending pool's calls and views
--   StockVault   ghoststake-contracts/src/StockLoanVault.sol: deposit, withdraw, borrow, repay,
--                liquidate and writeOffBadDebt
--   Forms        the forms that send transactions: Lend, Collateral and Loan are of app/(app)/lend
--                and app/(app)/stocks, Vault of app/(app)/borrow and app/(app)/stake, Position of
--                components/MarketBlock.tsx; LendChain and LoanChain run them on the contracts
--   Operator     lib/operator.ts: the console's button, warnings, schedules and feed search
--   Lend         lib/lend.ts
--   Stake        lib/stake.ts and lib/accrual.ts
--   StockLoan    lib/stockLoan.ts
--   Spot         lib/spot.ts and lib/strike.ts
--   Positions    lib/positions.ts: what a position came to
--   Format       lib/format.ts: figures as text
--   Alerts       lib/alerts.ts; Alerts/Seen is the effect of hooks/useAlerts.ts
--   MarketList   lib/marketList.ts
--   Resolution   lib/resolution.ts, and the guards of challenge and finalise of
--                ghoststake-contracts/src/EventRoundOracle.sol
--   Nav          lib/nav.ts
--   Category     lib/marketCategory.ts
--   Question     lib/question.ts
--   Activity     lib/activity.ts
--   Card         components/RoundCard.tsx
--   AtRisk       lib/atRisk.ts, whose actionFor is risk_action here; AtRisk/Screen is app/(app)/liquidate
--   Wallets      lib/wallets.ts
--   Stalled      hooks/useStalled.ts; the events are renders and the time that passes
--   Pseudo       i18n/pseudo.ts: one message of the pseudo-locale
--   Locale       i18n/locale.ts
--   Prelude, Text  shared: Boolean tests, lists measured by native numbers, signed integers, and
--                strings as lists of UTF-16 code units with the standard functions on them
--   Examples     runs of the definitions and the theorems at concrete inputs
--
-- A function keeps its name in snake case, a type keeps its own. A bigint that the chain reports is
-- unsigned and is a natural number; one that the code lets go below zero is an integer of
-- Prelude/Int. `null` and `undefined` are `none`; a message of the catalog is a constructor with its
-- arguments. Of an activity event's data only the funder is kept.
--
-- Interaction: Operator and Spot are stated against Market on the rounds of Rounds; Positions against
-- what Market pays; Alerts reads Claims and Format; Format's figures are read back by Amount.
--
-- Reads builds the rows that MarketList and the screens show and the claims that Claims runs, from a
-- chain that is a function from calls to replies; Markets takes its addresses from Env. Market/Custody
-- moves a round by the operations of Market and pays what its claimableOf says. StockVault borrows
-- from Pool and repays it as its one borrow module. A form is its button's test and the transactions
-- it sends in turn; LendChain puts them to Pool and a token, LoanChain to StockVault. Card sets Rounds,
-- Spot and Question together and is stated against Market and Market/Custody.
--
-- State: Transaction holds every send in flight by the number that `live` had for it, since an
-- abandoned send goes on; an event is the answer of the wallet or the chain to one of them, in any
-- order. Claims passes the hook's outcomes through the loop, whose replies are a function of the turn.
--
-- Fuel: the digits of n are written with n + 1 steps, more than there are digits; the feed search
-- runs with the latest id as fuel, and each step shrinks its interval. The pseudo-locale runs on any
-- fuel, since its loops may jump back; `none` is a run without an end. All other loops are structural.
--
-- Parameters: the wallet's and the chain's replies, the feed's rounds, the oracle's answer, a
-- locale's separators and units from Intl, Date.parse, Number and new URL where a text is read, and
-- for the contracts the tokens, their owners and the pause, and the price feeds and multipliers
-- that the stock-loan vault reads.
--
-- Not modelled: rendering, what wagmi and the API do with a request, the ABIs, the
-- catalog of messages, the Go backend, and the contracts beyond the ones above.
pub mod Prelude
pub mod Text
pub mod Amount
pub mod Claims
pub mod Transaction
pub mod Rounds
pub mod Market
pub mod Operator
pub mod Lend
pub mod Stake
pub mod StockLoan
pub mod Spot
pub mod Positions
pub mod Format
pub mod Alerts
pub mod Card
pub mod Env
pub mod Csp
pub mod Markets
pub mod MarketList
pub mod Reads
pub mod Resolution
pub mod Nav
pub mod Category
pub mod AtRisk
pub mod Activity
pub mod Wallets
pub mod Question
pub mod Pool
pub mod StockVault
pub mod Forms
pub mod Stalled
pub mod Pseudo
pub mod Locale
pub mod Examples
