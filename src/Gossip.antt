-- ===== src/Gossip.antt =====
-- node/gossip.py: `GossipNode`. The nodes are a store by their ids; `random.sample` is a parameter that
-- may depend on the whole store. A message without hops has ttl 0, also where the code's is negative. The calls of one message happen at one time `now`.
mod Tests
pub mod Spread
use Prim.Native.String.{String}
use Prim.Native.Nat.{min}
use decentralized_llm.Base.{
  ℕ, zero, suc, ◌+◌, Option, none, some, Bool, true, false, List, [], ◌∷◌, ◌++◌, ltb, if◌then◌else◌,
  length,
}
use decentralized_llm.Base.Dict.{Eq, Dict, lookup, contains, insert, erase, string_eq}

pub data GossipMessageType : Type 0 where
  peer_announcement : GossipMessageType
  job_announcement : GossipMessageType
  node_health : GossipMessageType
  model_availability : GossipMessageType

pub record GossipMessage : Type 0 where
  pub msg_id : String
  pub sender_id : String
  pub msg_type : GossipMessageType
  pub payload : String
  pub timestamp : ℕ
  pub ttl : ℕ

pub record GossipNode : Type 0 where
  pub node_id : String
  pub fanout : ℕ
  pub seen_ttl_seconds : ℕ
  pub peers : List String
  pub seen : Dict String ℕ
  pub inbox : List GossipMessage

abbrev pub Network : Type 0
Network = Dict String GossipNode

-- `peer_id in self._peers`
unfoldable pub has_peer : (peer_id : String) → List String → Bool
has_peer peer_id [] = false
has_peer peer_id (p ∷ peers) = if string_eq.beq p peer_id then true else has_peer peer_id peers

unfoldable pub add_peer : (peer_id : String) → GossipNode → GossipNode
unfolding has_peer
add_peer peer_id n =
    if string_eq.beq peer_id n.node_id
    then n
    else (if has_peer peer_id n.peers then n else record n { peers = n.peers ++ peer_id ∷ [] })

-- the peers but one: the sender, or a removed peer
unfoldable pub candidates : (sender_id : String) → List String → List String
candidates sender_id [] = []
candidates sender_id (p ∷ peers) =
    let rest = candidates sender_id peers in if string_eq.beq p sender_id then rest else p ∷ rest

unfoldable pub remove_peer : (peer_id : String) → GossipNode → GossipNode
unfolding candidates
remove_peer peer_id n = record n { peers = candidates peer_id n.peers }

-- the entries of `_seen` that are not expired
unfoldable pub keep_recent : (now seen_ttl_seconds : ℕ) → Dict String ℕ → Dict String ℕ
keep_recent now seen_ttl_seconds [] = []
keep_recent now seen_ttl_seconds ((msg_id, ts) ∷ seen) =
    let rest = keep_recent now seen_ttl_seconds seen in
    if ltb (ts + seen_ttl_seconds) now then rest else (msg_id, ts) ∷ rest

-- `_prune_seen`
unfoldable pub prune_seen : (now : ℕ) → GossipNode → GossipNode
unfolding keep_recent
prune_seen now n = record n { seen = keep_recent now n.seen_ttl_seconds n.seen }

-- `_seen` and `_inbox` with the message
unfoldable pub accept : (now : ℕ) → GossipMessage → GossipNode → GossipNode
unfolding insert
accept now msg n = record n { seen = insert msg.msg_id now n.seen; inbox = n.inbox ++ msg ∷ [] }

-- the copy that a node forwards, with `ttl` hops left
unfoldable pub forwarded : (node_id : String) (ttl : ℕ) → GossipMessage → GossipMessage
forwarded node_id ttl msg = record msg { sender_id = node_id; ttl = ttl }

-- `peer.receive(forwarded)` for each of the peers
unfoldable pub send_all : (String → Network → Network) → List String → Network → Network
send_all deliver [] net = net
send_all deliver (p ∷ peers) net = send_all deliver peers (deliver p net)

module _ (sample : Network → ℕ → List String → List String) (now : ℕ) where
  -- `receive`, of a message whose hops are `ttl`
  unfoldable pub receive : (ttl : ℕ) → GossipMessage → (node_id : String) → Network → Bool × Network
  unfolding prune_seen accept candidates forwarded send_all lookup insert
  receive zero msg node_id net = elim (lookup node_id net) [
    | none ↦ (false, net)
    | some n ↦ (false, insert node_id (prune_seen now n) net)
  ]
  receive (suc ttl) msg node_id net = elim (lookup node_id net) [
    | none ↦ (false, net)
    | some n ↦
        let n' = prune_seen now n in
        let net' = insert node_id (accept now msg n') net in
        let others = candidates msg.sender_id n.peers in
        let forward_to = sample net' (min n.fanout (length others)) others in
        let spread =
          send_all (λ p w. (receive ttl (forwarded node_id ttl msg) p w).1) forward_to net' in
        if contains msg.msg_id n'.seen then (false, insert node_id n' net) else (true, spread)
  ]

  -- the call of `receive` with the message's own hops
  unfoldable pub receive_message : GossipMessage → (node_id : String) → Network → Bool × Network
  unfolding receive
  receive_message msg node_id net = receive msg.ttl msg node_id net
