-- ===== src/Lib.antt =====
-- A verification library for the inference node of decentralized-llm.
--
-- The node serves language models over a network of peers. This library models the parts of it that
-- decide what is stored, what runs next and who is paid, as functions that pass the state explicitly;
-- a Python exception is the value `raise e` of `Result`, beside the state that the call leaves.
--
-- Parts and files:
--   Base        shared tests on numbers, lists, counts of occurrences, dictionaries with their laws
--   KvCache     node/kv_cache.py, `PagedKVCache`: State (the object and the loops), Ops (`allocate`,
--               `free`, `read`, `share_prefix`), Write (`write`, `_cow_clone`), Invariant, Cells (what
--               each sequence sees, and what each call does to it), Reach (any run of calls)
--   Batching    node/continuous_batcher.py: Blocks (`BlockTable`), State (`Sequence`,
--               `ContinuousBatcher`, `_preempt_to_free`), Schedule (`schedule`), Step (`step`)
--   CircuitBreaker  node/circuit_breaker.py, `CircuitBreaker`; Runs has any interleaving of calls, Rows the
--               failures in a row, Blocked the calls that open a circuit and those of an open one
--   Settlement  node/settlement.py, `SettlementTracker`; Ledger follows the lamports through a run
--   Merkle      node/merkle.py, `MerkleTree` and `MerkleProof`: Padding and Climb hold the lemmas, Proofs
--               and Binding the theorems; the two uses of sha256 are parameters
--   Peers       node/peer_manager.py, `PeerManager`; Liveness follows a silent peer through ticks
--   Results     node/result_cache.py, `ResultCache`; Recency has the size and the lookups
--   Speculative node/speculative_decoder.py, `SpeculativeDecoder` for one sequence; the models, the
--               acceptance test and the sampling are parameters; Budget has the theorems
--   Cleaner     node/resource_manager.py, `JobCleaner.scan_once`; Scans has what a scan removes
--   Activation  node/activation_stream.py: the frames, `ActivationServer` and `send`; Reading, Delivery and
--               Whole follow a frame through a stream in chunks
--   Commitment  node/zk_verifier.py: `ActivationSketch`, `InferenceVerifier`; Votes the aggregation,
--               Payload, Similar, Signing and Majority the theorems, Toy a stand-in for the cryptography
--   Pipeline    node/verification_pipeline.py: `ProofBuilder`; Verify has `ProofVerifier` and
--               `SettlementVerifier`; Inclusion, Settling and Safety the theorems
--   Shards      node/p2p.py: `RemoteShardClient`, `MultiPeerShardClient`; Opening and Exhausted are about
--               the circuits that a failed call leaves, Routing and Fallback about the peer that answers
--   Jobs        node/server.py: `_job_loop` and `_job_worker`, with Once on their interleavings; Heap is their
--               priority queue, Prices has the runs without equal payments; Handle has `_handle_job`, Verdict node/verifier.py, Balance what the metrics count
--   Adapters    node/adapter_manager.py, `AdapterManager`; Hooks has `activate` and `swap`, Slots, Loading
--               and Runs what any run of calls keeps
--   Requests    node/batcher.py, `DynamicBatcher`; Order is about one turn, Runs about any run
--   Gossip      node/gossip.py, `GossipNode`; Spread is about one message in a network
--   Rates       node/rate_limiter.py, `RateLimiter`; Bounds is about any run of requests
--   Balancer    node/shard_balancer.py, `ShardBalancer`; Best is about the nodes of a pipeline
--
-- Pipeline calls Commitment and Merkle, and Shards calls CircuitBreaker and Peers, as in the code; the
-- other parts do not call one another, and each stands on Base alone.
--
-- How the state corresponds to the code: a tensor is a value of a type `V`, and the store a function
-- of layer, plane, block and offset. A Python set of block ids is a list without repetition, and `pop`
-- takes its head; nothing proved depends on which block that is. A `defaultdict(int)` is a function. A
-- dictionary is an association list. A `Sequence` is a shared object: queues hold its id and the field
-- `seqs` maps the id to the object, so two objects with one id are outside the model. Positions, times
-- and priorities, which the code only compares, are natural numbers; constructor arguments are natural
-- numbers, and the tests of the code on negative ones have the case 0 only. `sorted` is a stable
-- insertion sort. Every loop of the code runs over a list or a count, except the two `while` loops of
-- node/merkle.py: their fuel is the number of leaves, padded ones for the second. The first doubles a
-- number from 1 and the second halves the number of hashes, so that is enough, and the theorem on
-- proofs rests on it. The loop of `decode_speculative` has the token budget as fuel: each round keeps
-- a token at least. A circuit breaker reads its clock in natural numbers. A rate limiter counts parts
-- of a token, 60 for each tick of a second, where the code has a float: exact numbers. A batch id is
-- the counter that the code formats, and a lamport amount a natural number. The result cache gets keys
-- that are hashed. A byte is a natural number, a string its UTF-8 bytes, a float that is only stored
-- its bytes. The loop that reads n bytes has n as fuel, since each chunk has a byte at least; that of
-- `str` one more than the number. What a remote shard, the blockchain, the inference and the storage
-- answer is an argument: a `Visit` or a `World`. The loop over the attempts has their number as its
-- count, and the calls of `receive` from node to node the message's hops. The loops of the heap have
-- the position or the length as fuel: an entry rises to the parent, which is before it, or sinks to a
-- child, which is after it. Libraries (msgpack, torch's buffers, Ed25519, HMAC, SHA-256, base64, the
-- operations on floats) are records of functions, and what they promise is a named hypothesis.
--
-- Not modelled: ratios of floats (`utilization`, `tokens_per_second`, `batch_utilization`), the shapes
-- and devices of tensors, the cancellation of tasks between
-- steps, and the parts of the node that call libraries (torch, gRPC, Solana, IPFS).
pub mod Activation
pub mod Adapters
pub mod Balancer
pub mod Base
pub mod Batching
pub mod CircuitBreaker
pub mod Cleaner
pub mod Commitment
pub mod Gossip
pub mod Jobs
pub mod KvCache
pub mod Merkle
pub mod Peers
pub mod Pipeline
pub mod Rates
pub mod Requests
pub mod Results
pub mod Settlement
pub mod Shards
pub mod Speculative
