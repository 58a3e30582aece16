-- ===== src/Shards.antt =====
-- node/p2p.py: `RemoteShardClient` and `MultiPeerShardClient`, on the circuit breakers and the peer
-- manager. What a remote shard answers, and the clock, are given with each attempt.
mod Tests
pub mod Opening
pub mod Routing
pub mod Fallback
pub mod Exhausted
use Prim.Native.String.{String}
use decentralized_llm.Base.{
  ℕ, zero, suc, ◌+◌, Option, none, some, Bool, true, false, List, [], ◌∷◌, leb, if◌then◌else◌,
}
use decentralized_llm.Base.Dict.{Dict, lookup, insert, string_eq}
use decentralized_llm.CircuitBreaker.{
  CircuitState, closed, opened, half_open, Config, Breaker, init, refresh, Outcome, returned,
  failed, raised, Called, ran, circuit_open, call,
}
use decentralized_llm.CircuitBreaker.Runs.{fail_times}
use decentralized_llm.Peers.{PeerInfo, Peers}

-- one call of the remote shard: it starts at `now` and ends at `later`
pub record Attempt (A : Type 0) : Type 0 where
  pub now : ℕ
  pub later : ℕ
  pub outcome : Outcome A

-- `_mark_peer_suspected`
unfoldable pub mark_suspected : (endpoint : String) → Option Peers → Option Peers
unfolding insert
mark_suspected endpoint none = none
mark_suspected endpoint (some peers) = elim (lookup endpoint peers) [
  | none ↦ some peers
  | some peer ↦
      let peer' : PeerInfo = record peer { missed_heartbeats = peer.missed_heartbeats + 1 } in
      some (insert endpoint peer' peers)
]

-- `failure_threshold` calls of `_on_failure`, unless the circuit is open
unfoldable pub fail_unless : CircuitState → (now : ℕ) → Breaker → Breaker
unfolding fail_times
fail_unless opened now b = b
fail_unless closed now b = fail_times b.config.failure_threshold now b
fail_unless half_open now b = fail_times b.config.failure_threshold now b

-- the end of `RemoteShardClient.forward`, where no attempt has succeeded
unfoldable pub force_open : (now : ℕ) → Option Breaker → Option Breaker
unfolding fail_unless refresh
force_open now none = none
force_open now (some b) = let b' = refresh now b in some (fail_unless b'.state now b')

module _ {A : Type 0} where
  -- an attempt, with or without a breaker
  unfoldable pub try_once : Attempt A → Option Breaker → Called A × Option Breaker
  unfolding call
  try_once a none = (ran a.outcome, none)
  try_once a (some b) = let (called, b') = call a.now a.later a.outcome b in (called, some b')

  -- what an attempt leads to: `rest` goes on from the marked peers. `raised` is an `Exception` that the
  -- breaker's config does not count; cancellation, which no handler here catches, is left out.
  unfoldable pub after_attempt :
      (endpoint : String)
      → Called A
      → (breaker : Option Breaker) (peers : Option Peers)
      → (rest : Option A × (Option Breaker × Option Peers))
      → Option A × (Option Breaker × Option Peers)
  after_attempt endpoint (ran (returned x)) breaker peers rest = (some x, (breaker, peers))
  after_attempt endpoint circuit_open breaker peers rest = (none, (breaker, peers))
  after_attempt endpoint (ran failed) breaker peers rest = rest
  after_attempt endpoint (ran raised) breaker peers rest = rest

  -- the loop of `RemoteShardClient.forward`: there are as many attempts as `max_retries`
  unfoldable pub attempt_all :
      (endpoint : String)
      → List (Attempt A)
      → (breaker : Option Breaker) (peers : Option Peers)
      → Option A × (Option Breaker × Option Peers)
  unfolding try_once after_attempt mark_suspected
  attempt_all endpoint [] breaker peers = (none, (breaker, peers))
  attempt_all endpoint (a ∷ attempts) breaker peers =
      let (called, breaker') = try_once a breaker in
      let rest = attempt_all endpoint attempts breaker' (mark_suspected endpoint peers) in
      after_attempt endpoint called breaker' peers rest

  unfoldable pub give_up :
      (after : ℕ)
      → Option A × (Option Breaker × Option Peers)
      → Option A × (Option Breaker × Option Peers)
  unfolding force_open
  give_up after (some x, (breaker, peers)) = (some x, (breaker, peers))
  give_up after (none, (breaker, peers)) = (none, (force_open after breaker, peers))

  -- `RemoteShardClient.forward`, where `none` is `RemoteShardError`
  unfoldable pub remote_forward :
      (endpoint : String)
      → List (Attempt A)
      → (after : ℕ) → (breaker : Option Breaker) (peers : Option Peers)
      → Option A × (Option Breaker × Option Peers)
  unfolding attempt_all give_up
  remote_forward endpoint attempts after breaker peers =
      give_up after (attempt_all endpoint attempts breaker peers)

-- `MultiPeerShardClient`

-- `_circuit_breakers`, of which each is that of the peer's client, and the shared peer manager
pub record MultiPeer : Type 0 where
  pub circuit_breakers : Dict String Breaker
  pub peer_manager : Option Peers

-- the loop of `__init__`; `config` is that of the breakers
unfoldable pub connect : Config → List String → Dict String Breaker → Dict String Breaker
unfolding init insert
connect config [] breakers = breakers
connect config (endpoint ∷ peers) breakers =
    connect config peers (insert endpoint (init config) breakers)

-- `_reputation`
unfoldable pub reputation : Peers → String → ℕ
unfolding lookup
reputation peers endpoint = elim (lookup endpoint peers) [
  | none ↦ 0
  | some info ↦ info.stake_lamports
]

-- a stable sort, highest reputation first
unfoldable pub place : Peers → String → List String → List String
unfolding reputation
place peers p [] = p ∷ []
place peers p (q ∷ ps) =
    let rest = place peers p ps in
    if leb (reputation peers q) (reputation peers p) then p ∷ q ∷ ps else q ∷ rest

unfoldable pub by_reputation : Peers → List String → List String
unfolding place
by_reputation peers [] = []
by_reputation peers (p ∷ ps) = place peers p (by_reputation peers ps)

unfoldable pub endpoints : Dict String Breaker → List String
endpoints [] = []
endpoints ((endpoint, b) ∷ breakers) = endpoint ∷ endpoints breakers

-- `_priority_ordered_peers`
unfoldable pub ordered_peers : MultiPeer → List String
unfolding endpoints by_reputation
ordered_peers m = elim m.peer_manager [
  | none ↦ endpoints m.circuit_breakers
  | some peers ↦ by_reputation peers (endpoints m.circuit_breakers)
]

-- a visit of a peer: the look at its circuit, its one attempt, and the look after it failed
pub record Visit (A : Type 0) : Type 0 where
  pub looked : ℕ
  pub attempt : Attempt A
  pub after : ℕ

-- the result, `AllPeersFailedError`, or a peer without a breaker
pub data Answer (A : Type 0) : Type 0 where
  answered : A → Answer A
  all_failed : Answer A
  no_breaker : Answer A

-- the breaker that a call leaves
unfoldable pub keep_breaker :
    (endpoint : String) → Option Breaker → Dict String Breaker → Dict String Breaker
unfolding insert
keep_breaker endpoint none breakers = breakers
keep_breaker endpoint (some b) breakers = insert endpoint b breakers

module _ {A : Type 0} where
  unfoldable pub take_answer :
      (endpoint : String)
      → Option A × (Option Breaker × Option Peers)
      → MultiPeer
      → Option A × MultiPeer
  unfolding keep_breaker
  take_answer endpoint (answer, (breaker, peers)) m = (
    answer,
    record {
      circuit_breakers = keep_breaker endpoint breaker m.circuit_breakers;
      peer_manager = peers;
    },
  )

  -- a peer whose circuit, just looked at, is in this state
  unfoldable pub visit_when :
      CircuitState → (endpoint : String) → Visit A → Breaker → MultiPeer → Option A × MultiPeer
  unfolding take_answer remote_forward
  visit_when opened endpoint v b m =
      (none, record m { circuit_breakers = insert endpoint b m.circuit_breakers })
  visit_when closed endpoint v b m =
      take_answer endpoint
        (remote_forward endpoint (v.attempt ∷ []) v.after (some b) m.peer_manager) m
  visit_when half_open endpoint v b m =
      take_answer endpoint
        (remote_forward endpoint (v.attempt ∷ []) v.after (some b) m.peer_manager) m

  unfoldable pub visit : (endpoint : String) → Visit A → Breaker → MultiPeer → Option A × MultiPeer
  unfolding visit_when refresh
  visit endpoint v b m = let b' = refresh v.looked b in visit_when b'.state endpoint v b' m

  -- the answer, if there is one, and else the `rest` of the loop
  unfoldable pub pass_on :
      Option A → MultiPeer → (rest : Answer A × MultiPeer) → Answer A × MultiPeer
  pass_on (some x) m rest = (answered x, m)
  pass_on none m rest = rest

  -- the loop of `MultiPeerShardClient.forward`
  unfoldable pub forward_peers : (String → Visit A) → List String → MultiPeer → Answer A × MultiPeer
  unfolding visit lookup pass_on
  forward_peers world [] m = (all_failed, m)
  forward_peers world (endpoint ∷ peers) m = elim (lookup endpoint m.circuit_breakers) [
    | none ↦ (no_breaker, m)
    | some b ↦
        let (answer, m') = visit endpoint (world endpoint) b m in
        let rest = forward_peers world peers m' in pass_on answer m' rest
  ]

  unfoldable pub forward : (String → Visit A) → MultiPeer → Answer A × MultiPeer
  unfolding forward_peers ordered_peers
  forward world m = forward_peers world (ordered_peers m) m
