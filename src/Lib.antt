-- ===== src/Lib.antt =====
-- The validator rewards service: a Go service that computes, from the state of the TON blockchain, the
-- validation rounds and the distribution of a round's bonuses, or of what one block earned, over
-- validators and nominators.
--
-- A request reaches api/handler.go, which reads its parameters and asks service/rounds.go or
-- service/blocks.go. These resolve the query to a block, read config param 34 there, find the blocks
-- at which the election changes (findElectionBoundary), read the elector's past elections and the
-- stakes of the validators' pools, and share the bonuses out. Blocks and configs are looked up through
-- the dataloaders of service/loaders.go. The requests to the network go through a retry loop and a round
-- robin over liteservers, whose client service/service.go replaces after seven days.
--
-- The files, and the code that they model (paths from the repository's root):
-- - Math: utils/math.go (MulDiv, InaccurateDivFloat). Math/Bounds is about shares of a whole.
-- - Model: the results and queries of model/model.go, and NTon of model/nton.go.
-- - Tlb: the layouts of service/pool.go and what is used of the tongo library. Its decoder, its address
--   formats and its float64 arithmetic are the fields of the record Tongo, which every definition takes
--   as a parameter.
-- - Outcome: a Go call returns a value, returns an error or panics, and changes the state.
-- - Retry: service/retry.go.
-- - RoundRobin: the choice of a client in service/roundrobin.go, and its requests (RoundRobin/Forward).
--   Proofs: Choice, Fairness, and Excluded on a retry session with requests.
-- - Client: service/client.go, NewRoundRobinClient of service/roundrobin.go, service/service.go. Files,
--   HTTP, the clock, tongo's parser of the config and liteapi.NewClient are the record Outside. Proofs:
--   Config on the cache of the config, Made on a new client, Refresh on the client of the service.
-- - Strconv: what Go's ParseUint, ParseInt, SetString and `%q` do. Strconv/RoundTrip is about printed numbers.
-- - State: the caches of service/pool.go, the counter of model/rpccount.go, the interface LiteClient.
-- - Pool: fetchPoolData of service/pool.go. Its cache is `pool_types` of the state.
-- - Elections: fetchRawPastElections and getAllPoolAddresses of service/pool.go. Their cache is
--   `past_elections` of the state.
-- - Chain: service/blockchain.go.
-- - Rewards: service/shared.go from buildValidatorRows on (Rewards/Rows, Rewards, Rewards/Split).
-- - Rounds: service/rounds.go and fetchRoundData of service/shared.go: Lookup (config param 34),
--   Boundary (findElectionBoundary), Anchor (getAnchorExt), Report (FetchRoundRewards), Info, Rest and
--   Listing (FetchValidationRounds; its limit of 1 keeps Rest from being entered). The look-ups of
--   service/loaders.go are the record Loaders, an interface. Proofs: Adjacent and Search on the
--   boundaries, Before on the election before a block, Listed on the listing, Kept, Fetched, Bonuses
--   and Paid on the report.
-- - Loaders: service/loaders.go, the look-ups as an implementation of that interface. The dataloader and
--   LRU libraries, the JSON of a list and tongo's encoding of cells are parameters. Loaders/Global is
--   WithLoaders, whose variable globalLoaders is its state. Proofs: Kept and Errors, and Boundaries on the boundary search through the loaders,
--   with Honest (what it relies on) and Answers. Loaders/Sample: loaders for the runs.
-- - Blocks: service/blocks.go. Proofs: Bonuses and Shares.
-- - Stable: what all calls of the service keep of its caches; Stable/Rewards, Stable/Rounds and
--   Stable/Blocks are about the calls of service/shared.go, service/rounds.go and service/blocks.go.
-- - Api: api/handler.go. A request is its parameters, a response its status and body. Proofs: Queries
--   and Served on the parameters, Kept on the state.
-- - Server: main.go, its start and its routes. Server/Reach has the moves of a server with several running
--   requests (Run), made of the code's own operations, and the steps that these may take (Reach), which
--   leave open how. Proofs: Start on what it listens with, Sound on the states that moves and steps lead
--   to, Pools on the map that is read there, Shares on the answers.
-- - RoundCheck: calculate of cmd/roundcheck/main.go; RoundCheck/Accepts is about the files of the
--   service's results, and RoundCheck/Run is `run`, with its exit code and its lines.
-- - Bonuses: cmd/bonuses/main.go; Bonuses/Agrees compares it with the service.
-- - Base: numbers, lists, maps, texts and sorting. Sample: a small chain for the runs in the Tests.
--
-- Amounts are integers without bounds, as in math/big; block numbers and times are natural numbers,
-- with the wrap-around of uint32 where the code adds or subtracts. An error is its message. A map is an
-- association list. Goroutines that each write one result run one after the other; of sort.Slice only
-- that it permutes and orders is used, and its result is that of an insertion sort. The loop of
-- findElectionBoundary has its own bound of 20 rounds, the retry loop its bound of 30 attempts, and
-- the walk back of fetchPrevElectionIDForBlock its bound of 1000: no other fuel is used.
--
-- Not modelled: what the dataloader library does with its caches, the encoding of JSON, the reading of
-- flags and of the environment file, the dispatch of http.ServeMux, logs, traces and the pauses between
-- attempts. Calls of several requests at once run one after the other, so the locks of the caches and of
-- the service have nothing to do here; of the caches' writes, the moves and steps
-- of Server/Reach allow any order.
pub mod Base
pub mod Outcome
pub mod Strconv
pub mod Math
pub mod Tlb
pub mod Model
pub mod Retry
pub mod RoundRobin
pub mod State
pub mod Pool
pub mod Elections
pub mod Chain
pub mod Rewards
pub mod Rounds
pub mod Loaders
pub mod Client
pub mod Blocks
pub mod Stable
pub mod Api
pub mod Server
pub mod RoundCheck
pub mod Bonuses
pub mod Sample
