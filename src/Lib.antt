-- ===== src/Lib.antt =====
-- The reward pipeline of Centry, from the chain to an active reward epoch, the core of the database
-- that its agents share, the part of the agents' runner that turns actions into transactions, their
-- executor, and the limit on requests of the frontend.
--
-- Five scripts run one after the other, and each hands a file, or the chain's state, to the next.
-- scripts/generate-reward-allocations.js scans the veCENT tokens, finds a free epoch and what the
-- contract can afford, and divides that budget by voting power. scripts/generate-reward-manifest.js
-- builds a Merkle tree over the amounts and stores a proof with each.
-- scripts/validate-reward-manifest.js tests the manifest and its root on the chain.
-- scripts/queue-reward-epoch.js and scripts/activate-reward-epoch.js decide whether to send the two
-- transactions.
--
-- Prelude holds what the components share: tests on the native numbers, lists, results with one
-- error for each `throw`, signed integers (Prelude/Int), JavaScript's numbers (Prelude/Number), a
-- stable sort for `Array.sort` (Prelude/Sort) and strings as lists of code units (Prelude/Text).
--
-- Rewards/Types is the data of the files. A decimal number in a file is the number itself, since
-- each script writes it by `toString` and reads it back by `BigInt`; a field that may be missing or
-- no number is a `Field`. Rewards/Scan is the scan over the tokens: `scan` is the loop of `main`,
-- and `scan_token` its body. Rewards/Budget is `findNextEpoch`, `getOutstandingActiveObligations`,
-- `getPendingObligations` and `resolveRewardBudget`. Rewards/Allocate is the division: the shares,
-- the two sorts and the loop over the leftover units. Rewards/Generate is `main` of
-- scripts/generate-reward-allocations.js. Rewards/Merkle is `leafHash`, `pairHash` and
-- `buildMerkleTree`, and the validator's `verifyProof`. Rewards/Manifest is the rest of
-- scripts/generate-reward-manifest.js, Rewards/Validate is scripts/validate-reward-manifest.js,
-- Rewards/Queue and Rewards/Activate are the two scripts that send transactions. The files in
-- Rewards/Scan, Rewards/Budget and so on hold the proofs, with what they are about:
-- Rewards/Scan/Eligible says in the contract's reads which tokens count, Rewards/Queue/Files what
-- the tests of the two files and of the signer mean. Tests holds a small chain with its files and
-- runs the theorems on it.
--
-- The agents' database is a worker, agent-db/src/index.js, whose `runOperation` serves the
-- operations on its tables. AgentDb/Args is `requireString`, `boundedText` and the clamping of a
-- number. AgentDb/Keys is the keys of external agents (`create_agent_key`, `get_active_agent_key`
-- and `revoke_agent_key`). AgentDb/Tasks is the queue of tasks between agents (`enqueue_agent_task`
-- and `complete_agent_task`), AgentDb/Claims the leases on them (`claim_agent_tasks`) and the list
-- of the pending ones (`list_pending_agent_tasks`), AgentDb/Locks the lock of an agent's run and
-- AgentDb/Nonces the nonces of signed requests. A table is the list of its rows, and an operation
-- is a function from the table and the time to the table and the answer. A time is a number of
-- milliseconds; of the columns with an ISO text, the text is written and compared, and its width is
-- fixed, so it compares as the time does. The order of rows of one time is the database's, so its
-- sorting by `created_at` is a parameter.
--
-- The worker agent-runner/src/index.js lets agents act. Runner/Values is its constants and how it
-- reads amounts (`clampInt`, `positiveUint`, `assetAddress`, `assetAmountToBaseUnits`),
-- Runner/Policy is `agentPolicy` and `assertActionPolicy`, Runner/RiskGuard is `evaluateRiskGuard`
-- with `riskGuardConfig` and `maxPolicyAmountRaw`, Runner/HealthActions is `filterRiskGuardActions`
-- and `evaluateHealthWarning`, Runner/Batch is the state of the loop of `buildCalls` with
-- `ensureBatchAllowance` and `quoteUnitFlowExactInput`, Runner/Conditions is the conditions on
-- single actions with `verifyAgentGenesis`, and Runner/Build is `buildCalls` itself. A `Map` is the
-- list of its entries (Prelude/Assoc). The two loops over actions and approvals are recursions on
-- the lists. A call keeps the payload that it encodes beside the digits, and Runner/Ledger says
-- what a batch of calls does to the account's allowances, by the rules of ERC-20 and what the
-- pool's `supply` and `repay` and the router's `exactInputSingle` take. The debts and balances of a
-- snapshot are decimal numbers, so they are numbers here; the health factor is a `Field`.
--
-- Runner/Receipts is `annotateActionCalls`, with the calls from the offset on as a list, and the
-- rows of `createActionReceipts`; Runner/Permissions is `assertPermissions`.
--
-- Runner/Concurrency is `withConcurrency`: a pool of workers that share a cursor. A step is a worker's
-- reading of the cursor or the end of its item's function, and `run` takes the steps in any order that
-- is given, so more orders than JavaScript allows, where an end and the next reading are one step.
--
-- Executor is the worker agent-executor/src/index.js, which runs one agent at its owner's request; the
-- database, the address of a key and `runAgent` are parameters, and an answer holds the run that was
-- made for it.
--
-- RateLimit is frontend/lib/rateLimit.js, with the map of buckets as a list of its entries.
--
-- Parameters. The chain is a record of its reads (`VeCent`, `RewardsView`); a call that reverts is
-- `none`. A script's reads are taken at one moment. The library ethers is a record of four
-- functions (`Ethers`); of it the proofs assume no more than that `keccak256` returns lower-case
-- text. The library viem is a record of three (`Viem`); of it the proofs assume no more than that
-- `getAddress` keeps an address up to case and that an encoded call begins with the selector of its
-- function. The runner's reads of the chain, the database and the clock are a record (`Reads`). The
-- effect of `activateEpoch` on the chain is a parameter, since the contract is not JavaScript; that
-- of `queueEpoch` is `after_queue`, the storage that the contract documents.
--
-- Bounds. Loops over tokens, epochs and leaves are recursions on the number of rounds left, which
-- is computed from the limits as the code does. The loop that builds the levels of the tree runs on
-- fuel, the number of leaves; each round makes the level shorter, so it is always enough. The
-- leftover loop runs once for each unit left. A uint256 is a natural number; nothing in the scripts
-- wraps around, since they compute with BigInt. `Number(epoch)` rounds to a double, with 256 rounds
-- of halving, which serve every uint256. The limits that a script takes from its environment are
-- natural numbers. Upper and lower case are those of the ASCII letters. A task's result that is no
-- string is given as its JSON text. An agent's policy is an object or absent, not `null`.
--
-- Not modelled: reading and writing files, JSON and the console, the connection to the chain, the
-- other tables of the agents' database and the signature of its requests, and the rest of the
-- repository: the contracts, the frontend and its API routes, and of the agents'
-- runner the cycle of an agent's run, the calls of the models and the readings of snapshots.
pub mod AgentDb
pub mod Executor
pub mod Prelude
pub mod RateLimit
pub mod Rewards
pub mod Runner
pub mod Tests
