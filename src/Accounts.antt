-- ===== src/Accounts.antt =====
-- The readers of the program's accounts: crank/src/parser.ts, src/lib/program.ts, the account
-- parts of crank/src/degenLogic.ts, and `parseConfig` of lib/api/actions-shared.ts.
-- `PublicKey` is the web3 library's: its type, its constructor from bytes, its equality and its
-- default value are parameters. `d[i]` past the end is `undefined`; where a later read of the same
-- function throws then, it is written as a read that fails, and else it stays an `Option`.
pub mod Crank
pub mod Web
pub mod Degen
pub mod Config
pub mod Layout
pub mod RoundTrip
pub mod Agreement
