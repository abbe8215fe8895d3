-- ===== src/Lib.antt =====
-- Noble Dollar: the module of the $USDN stablecoin (keeper/, types/, and the IBC wrapper and
-- middleware in the root of the repository).
--
-- The program. A keeper holds the principal of every account and a global index; the present
-- amount of a principal under the index is what an account is owed. The bank calls the keeper's
-- send restriction in every transfer of $USDN, and it moves principal along. An index update mints
-- the yield that accrued and distributes it: to the vaults, and to other chains over IBC and
-- Hyperlane. The portal takes and sends Wormhole messages in the NTT format, which mint and burn
-- $USDN and bring new indices. The vaults lock $USDN in positions; the begin blocker ends their
-- first season.
--
-- The files.
--   Base and its children: shared names, Boolean tests, integers, lists, bytes and big-endian words,
--     keys, and association lists in the order of their keys for the maps of the store.
--   Types: the result type (a value, an error, or a panic) and the monad of the handlers.
--     Types/Store: the state, field by field as in `type Keeper struct` (keeper/keeper.go), and the
--     events. Types/Env: the configuration and all other modules as one record of parameters.
--     Types/Rules: rules for what a call keeps, and for what holds where it returns.
--   Math: keeper/math.go. Math/Rounding: formulas and laws of the rounding.
--   Ntt/Manager, Ntt/Transceiver, Ntt/Transfer: types/portal/ntt/*.go. Ntt/Slice: slices of bytes.
--     Ntt/RoundTrip: the encoders against the parsers.
--   Payload: types/portal/payload.go and additional_payload.go. Payload/RoundTrip: the same for them.
--   State/Names: the module names and addresses. State/Dollar, State/Portal, State/Vaults:
--     keeper/state.go, state_portal.go and state_vaults.go, a function for each method; their
--     listings stand in State/Listing. State/Provider: types/v2/provider.go.
--   Restriction: `SendRestrictionFn` of keeper/keeper.go. Restriction/Totals, Restriction/Moves and
--     Restriction/Runs: what it does to the sum of the principals and to the statistics, in one
--     transfer and in a run of them.
--   Bank: the sends of the bank with the restriction in them, as in utils/mocks/bank.go, with what
--     the bank does before and after it as parameters. Bank/Mock: that mock as an instance.
--     Bank/Keeping: what the sends leave alone. Bank/Laws: what the keeper relies on of a bank, which
--     Bank/Mock/Laws shows of the mock. Bank/YieldAccount: the yield account in the sends.
--   Yield: `GetYield`, `ClaimYield`, `SetPausedState`, `Burn` and `claimModuleYield`. Yield/Claim,
--     Yield/Keeping, Yield/Burning and Yield/Claiming: their laws.
--   Index/Vaults, Index/External, Index/Update: `UpdateIndex` and `Mint` of keeper/msg_server.go and
--     the distribution. Index/Refusal: when an update is refused or panics. Index/Retrying and
--     Index/Rounds: what the distribution over IBC leaves to retry, in one round and in several.
--     Index/Keeping, Raising, Distributing, Monotone: the stored index around an update.
--     Index/Accruing, Minting, Solvency: the bank's supply against the total principal.
--   Portal/Constants, Portal/Admin, Portal/Deliver, Portal/Transfer: keeper/msg_server_portal.go and
--     `Deliver` and `HandlePayload` of keeper/keeper.go. Portal/Owner, Portal/Checks,
--     Portal/EndToEnd, Portal/Burning: their laws.
--   Vaults/Account, Admin, Lock, Walk, Rewards, Unlock, Season: keeper/msg_server_vaults.go and
--     keeper/abci.go. Vaults/Backing and its children: the positions against the total flexible
--     principal, over locks and unlocks. Vaults/Withdrawing: what a lock leaves to be unlocked.
--     Vaults/Guards, Removal, Sharing, Recording, Ending, Totals: the other laws. Vaults/Digits and Vaults/Names: the names of the module accounts.
--   Recipients: `SetYieldRecipient` of keeper/msg_server_v2.go.
--   Ibc: isc4_wrapper.go and ibc_middleware.go. Ibc/Retry: their laws.
--   Query/Dollar, External, Portal, Vaults, Rewards: keeper/query_server.go, query_server_v2.go,
--     query_server_portal.go and query_server_vaults.go. Query/Pending: the pending rewards against
--     the claims.
--   Genesis/Record, Init, Export: genesis.go and types/v2/genesis.go. Genesis/Collect, Reading,
--     Listed, Keys, PortalPart, VaultsPart, DollarPart, DollarRun, RoundTrip: their laws.
--   Migrations: keeper/migrations.go.
--   Tests: a small chain over the mock bank, and the theorems at concrete inputs.
--
-- How the code is modelled. A method is a function of the same name in lower case that takes its
-- arguments and the state and gives a result and the new state. Writes before an error or a panic
-- stay, as in the code, until a caller discards them: the begin blocker does, with its cached
-- context. A long method is cut into functions in the order of its statements. Maps keep their keys
-- in order, so that a walk visits them as the store does: the address in the key of a position,
-- which other parts follow, goes by its length first. `math.Int` is an unbounded integer, but
-- for `SafeAdd` and `SafeSub`, which check 256 bits; int64 conversions, uint16 lengths, the uint32
-- nonce and the uint64 counts wrap as in Go. Slices have their length as capacity. Coins are an
-- amount of the one denomination. Enums of protobuf are their int32 numbers, and times are Unix
-- seconds. A Go map is a list of its entries in the order in which a range visits them. All loops
-- are recursions on lists; only the printing of a time takes fuel, 20 digits, which covers 64 bits.
--
-- Not modelled: failures of the key-value store and of the event manager, nil amounts, the log, the
-- overflow panics of `math.Int`, the wiring of the module, and generated code. The bank,
-- IBC, Hyperlane, Wormhole, the decimals of the SDK, the address codec and the hash stand outside
-- the repository and are parameters.
pub mod Base
pub mod Types
pub mod Math
pub mod Ntt
pub mod Payload
pub mod State
pub mod Restriction
pub mod Bank
pub mod Yield
pub mod Index
pub mod Portal
pub mod Vaults
pub mod Recipients
pub mod Ibc
pub mod Query
pub mod Genesis
pub mod Migrations
pub mod Tests
