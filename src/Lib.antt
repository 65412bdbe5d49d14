-- ===== src/Lib.antt =====
-- Winny: a jackpot on Solana. This library models the TypeScript around the on-chain program: the
-- crank that drives the rounds, the readers of its accounts, the endpoints that look rounds up, and
-- the RPC proxy.
--
-- Parts, and how they interact:
--   Crank       crank/src/index.ts, the service. `Crank` is its module-level state, `World` all that
--               it asks of the outside (clock, RPC reads, transactions, archive replies), answer by
--               answer, so that a theorem about every `World` is about every course of events. The
--               handlers are actions on the state, in Observe, Background, Rounds, Cleanup, Tick and
--               Startup, one function per function of the source or per part of a long one; `tick` is
--               one pass of the loop and `run` a number of passes. An action returns or throws, and
--               what it changed before an error stays changed. `events` lists what was seen and done.
--               Hoare has the rules to prove triples about actions; Stable, Passes, Handlers, Rules
--               and Recovery carry any predicate through the code, once for all predicates that follow
--               the rules of the steps; Tracking, Justified and Progress are three such predicates.
--               Refunds says what a cleanup of participants should report, by what the accounts hold
--               and what was sent, and its children show that the code's figures are those.
--   Runtime     crank/src/runtimeLogic.ts: retry plans, backoff, warnings. Crank calls it.
--   Scan        crank/src/activeRoundScan.ts: the search for the round in play. Crank/Startup gives
--               it its arguments.
--   Accounts    the readers of accounts: crank/src/parser.ts (Crank), src/lib/program.ts (Web),
--               crank/src/degenLogic.ts (Degen), lib/api/actions-shared.ts (Config), and the layout
--               that src/lib/program.ts documents (Layout).
--   Degen       crank/src/degenLogic.ts: candidates, payout, classification of errors.
--   Executor    crank/src/degenExecutor.ts. Prepare has the guards and the payout of processReadyClaim,
--               Executor itself the attempts to swap, with what was tried as a list of steps, Build the
--               instructions of one attempt (buildExecutionTx), and Send how one transaction is
--               simulated, sent and confirmed (simulateAndSend). `Outside.send` stands for the two
--               latter; Process composes all of them, with the readers of Accounts and the candidates
--               and the payout of Degen, as processReadyClaim does. Pass goes over the
--               claims that have the status VrfReady, of all that were fetched.
--   Actions     lib/api/actions-shared.ts: RoundCache (scanRoundIds and its cache), Eligibility (the
--               searches for a prize and a refund), and Endpoint (requests, errors and answers), with
--               Endpoint/Post for the handlers of api/actions/claim.ts and claim-refund.ts, and
--               Endpoint/Launch for those of claim-degen.ts and join-batch.ts. Its
--               `Outside` is what they use of the Solana libraries and what the chain answers;
--               `scanned` in it is an answer of RoundCache.
--   Proxy       rpc-proxy/src/index.ts: origins, HTTP decisions, and the WebSocket relay.
--   Phase       src/lib/roundPhase.ts and src/lib/roundUi.ts.
--   Missions    src/hooks/useMissions.ts: the missions of a player, what they pay, and the levels.
--               Amounts are doubles (Double). A page shows missions and the storage has what was
--               saved: a load shows what is made of it and saves nothing. Sound and Earned prove what
--               events and visits keep; Days is about the change of the week.
--   Social      lib/api/tapestry-shared.ts: Cache (the entries, their freshness and the eviction of the
--               oldest) and Profiles (getProfilesByWallets, which uses the caches, and
--               src/lib/tapestry/normalize.ts). The answers of a `Promise.all` are taken in the order
--               of the requests.
--   RoundStatus crank/src/constants.ts. Text and Bytes model JavaScript's strings and buffers. Base
--               has the shared names, lists, maps, sets and integers. Examples has the tests.
--
-- Conventions. Numbers are natural numbers of any size where the source has a number or a bigint that
-- is not negative; signed fields and differences are integers. A key is what the parameter
-- `public_key` makes of 32 bytes. A read past the end of a buffer, which throws, is `none`. Map keys
-- of two parts are pairs.
--
-- Bounds and fuel. The loops over batches in Crank/Startup and Crank/Cleanup have fuel for one batch
-- per id or participant, which is more than there are batches. The scans have the number of batches
-- of the source. descendingBatches has fuel for one batch per id, which is proved to be enough. The
-- search for an unused index in Degen has fuel, and its theorem says with which fuel it ends. The loop
-- of the level-ups in Missions has fuel for one level per JUP, which is proved to be enough. The scale
-- of a double has fuel for all finite doubles and their sums.
--
-- Not modelled: the environment, the wallet and the texts of log lines; Anchor's instruction builders
-- and SHA-256, which are parameters; the social event of a settled round, which nothing waits for;
-- Firebase but for its reply codes; floating-point code but for the sums of deposits (amounts for display,
-- the wheel); React; the
-- Rust programs; generated data.
pub mod Base
pub mod RoundStatus
pub mod Scan
pub mod Text
pub mod Runtime
pub mod Bytes
pub mod Accounts
pub mod Crank
pub mod Degen
pub mod Actions
pub mod Proxy
pub mod Phase
pub mod Missions
pub mod Social
pub mod Examples
pub mod Executor
