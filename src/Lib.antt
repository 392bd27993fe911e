-- ===== src/Lib.antt =====
-- The lending pool of the democratized prime contracts, as far as it is modelled.
--
-- The program is three CosmWasm contracts and a shared library: the pool (contracts/pool_v2), to which
-- lenders deposit one denom for repo tokens and from which borrowers borrow it against collateral; the
-- price oracle (contracts/price_oracle); the repo token (contracts/repo_token_cw20); and packages/lib.
-- The model is of the pool, of the valuation in packages/lib and of the repo token. The pool keeps a
-- reserve of scaled totals and two growing indexes. A handler accrues interest to the time of the block,
-- converts between scaled and underlying amounts by an index, checks its guards, writes the storage and returns messages:
-- to the bank, to the repo token, or a request to commit funds. An error reverts every write.
--
-- How the code corresponds. A handler of contracts/pool_v2/src/execute is a function of the same name
-- from the storage (a record `Pool`), the block, the message and its arguments to `Outcome`: an error, or
-- the new storage and the response; `execute` is the dispatch of a message to its handler, with the guards
-- of the paused and the frozen pool. `Result`, `ensure` and `or_err` are Rust's `Result`, `ensure!` and
-- `ok_or_else`. A `Decimal256` is its atomics, an unsigned integer its value, a timestamp its
-- nanoseconds; addresses and denoms are naturals in the order of their spelling. A `BTreeMap` and a
-- storage map is a list of entries by rising key. Messages of errors and event attributes are left out,
-- but for the rates, whose computation can fail.
--
-- Files:
--   Prelude, Prelude/Tests, Prelude/Results: shared names, Boolean tests, results and the rules for what a
--     successful run ensures (packages/lib/src/common/model/error/contract_error.rs).
--   Cosmwasm, Cosmwasm/Laws: the number operations of the crate `cosmwasm_std`, as a parameter with their
--     documented behaviour. U128, Map, Map/Sums: Rust's `u128` and ordered maps.
--   Host: the chain as a handler sees it, as a parameter: address validation, bank, attributes, the
--     oracle's and the repo token's answers, and the crate `cw_ownable`.
--   RateParams, Reserve, Contract, Pool: contracts/pool_v2/src/model and storage. Pool/Invariant and
--     Pool/Collateral: the invariant of the storage, and what its writers keep.
--   Rates, Accrual, Scaling, Haircut and their children: contracts/pool_v2/src/utils/rates.rs.
--   Access, Attributes, Responses and its child: contracts/pool_v2/src/utils (permission, ownership,
--     validation, response_ext) and response.rs.
--   Price: packages/lib/src/price_oracle/model/price.rs. PriceFeed, Health: utils/price.rs, utils/health.rs.
--   Lending, Borrowing, Collateral, Treasury: the handlers of contracts/pool_v2/src/execute, with what each
--     does in their children.
--   DirectedSale and its children: model/directed_sale.rs and execute/adjust_directed_collateral_sale.rs.
--   Liquidation: execute/liquidate.rs, as the composition of its sections: Payment (2 to 5), Seizure (6 to
--     8). Gate, Band, Outgoing and Settling say what each section establishes, Tender what it is paid with,
--     Effects and Taken what the whole does.
--   Configuration and its children: the handlers of the settings; Attributes/Patterns: the patterns of
--     required attributes. Dispatch, Dispatch/Paused: contracts/pool_v2/src/contract.rs and msg/execute.rs.
--   Instantiation, Instantiation/Start: contracts/pool_v2/src/instantiate and msg/instantiate.rs.
--   RepoToken, RepoToken/Supply, RepoToken/Delivery: contracts/repo_token_cw20/src/execute.rs and state.rs.
--   Steps and its children: histories of messages that go through. Fixtures, Tests and its children: a
--     concrete chain and pool, and the theorems there.
--
-- Bounds: 128-bit and 256-bit limits are the checks of the code. The scan for a wildcard attribute reads at
-- most five pages, as in the code. No definition needs fuel of its own.
--
-- Where a comment of the code says another thing than the code, the model follows the code. That is so of
-- who may change the configuration, the required attributes and the rate parameters, of an LTV that equals
-- the margin rate, and of the rounding of the debt that a loan records.
--
-- Not modelled: migration, queries, the price oracle contract, the queries of the repo token, event
-- attributes and serialization. The expiry of an ownership transfer is left out of its
-- action, since only the crate `cw_ownable` reads it.
pub mod Prelude
pub mod Cosmwasm
pub mod U128
pub mod Map
pub mod RateParams
pub mod RepoToken
pub mod Reserve
pub mod Rates
pub mod Scaling
pub mod Accrual
pub mod Haircut
pub mod Configuration
pub mod Contract
pub mod Host
pub mod Pool
pub mod Access
pub mod Attributes
pub mod Responses
pub mod Instantiation
pub mod Lending
pub mod Liquidation
pub mod Price
pub mod PriceFeed
pub mod Health
pub mod Borrowing
pub mod Collateral
pub mod DirectedSale
pub mod Dispatch
pub mod Treasury
pub mod Steps
pub mod Fixtures
pub mod Tests
