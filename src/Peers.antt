-- ===== src/Peers.antt =====
-- node/peer_manager.py: `PeerManager`. Times are natural numbers.
mod Tests
pub mod Liveness
use Prim.Native.String.{String}
use decentralized_llm.Base.{
  ℕ, suc, ◌+◌, Option, none, some, Bool, true, false, List, [], ◌∷◌, leb, ◌==◌, if◌then◌else◌,
  length,
}
use decentralized_llm.Base.Dict.{Eq, string_eq, Dict, lookup, contains, insert, erase}

pub data PeerStatus : Type 0 where
  active suspected dead : PeerStatus

pub record PeerInfo : Type 0 where
  pub peer_id : String
  pub host : String
  pub port : ℕ
  pub last_seen : ℕ
  pub missed_heartbeats : ℕ
  pub supported_models : List String
  pub stake_lamports : ℕ

abbrev pub suspect_after_missed : ℕ
suspect_after_missed = 2

abbrev pub dead_after_missed : ℕ
dead_after_missed = 5

-- `_peers`
abbrev pub Peers : Type 0
Peers = Dict String PeerInfo

-- `add_peer`
unfoldable pub add_peer :
    (now : ℕ) (peer_id host : String) (port : ℕ)
    → List String
    → (stake_lamports : ℕ) → Peers
    → PeerInfo × Peers
add_peer now peer_id host port supported_models stake_lamports peers =
    let info : PeerInfo = record {
      peer_id = peer_id;
      host = host;
      port = port;
      last_seen = now;
      missed_heartbeats = 0;
      supported_models = supported_models;
      stake_lamports = stake_lamports;
    } in
    (info, insert peer_id info peers)

unfoldable pub heartbeat : (now : ℕ) (peer_id : String) → Peers → Bool × Peers
heartbeat now peer_id peers = elim (lookup peer_id peers) [
  | none ↦ (false, peers)
  | some peer ↦
      let peer' : PeerInfo = record peer { last_seen = now; missed_heartbeats = 0 } in
      (true, insert peer_id peer' peers)
]

-- the loop of `tick`: the peers that are dead now come first
unfoldable pub tick : Peers → List String × Peers
tick [] = ([], [])
tick ((k, peer) ∷ peers) =
    let (newly_dead, peers') = tick peers in
    let peer' : PeerInfo = record peer { missed_heartbeats = peer.missed_heartbeats + 1 } in
    (
      if peer'.missed_heartbeats == dead_after_missed
          then peer.peer_id ∷ newly_dead
          else newly_dead,
      (k, peer') ∷ peers',
    )

-- the tests of `status`
unfoldable pub status_of : (missed_heartbeats : ℕ) → PeerStatus
status_of missed =
    if leb dead_after_missed missed
    then dead
    else if leb suspect_after_missed missed
    then suspected
    else active

unfoldable pub status : (peer_id : String) → Peers → Option PeerStatus
unfolding status_of
status peer_id peers = elim (lookup peer_id peers) [
  | none ↦ none
  | some peer ↦ some (status_of peer.missed_heartbeats)
]

unfoldable pub is_active : Option PeerStatus → Bool
is_active (some active) = true
is_active _ = false

-- the comprehension of `active_peers`, over the peers still to look at
unfoldable pub active_of : (all : Peers) → Peers → List PeerInfo
unfolding is_active status
active_of all [] = []
active_of all ((k, peer) ∷ peers) =
    let rest = active_of all peers in
    if is_active (status peer.peer_id all) then peer ∷ rest else rest

unfoldable pub active_peers : Peers → List PeerInfo
unfolding active_of
active_peers peers = active_of peers peers

-- `model_name in supported_models`
unfoldable pub supports : (model_name : String) → List String → Bool
supports model_name [] = false
supports model_name (m ∷ models) =
    let rest = supports model_name models in if string_eq.beq m model_name then true else rest

unfoldable pub with_model : (model_name : String) → List PeerInfo → List PeerInfo
unfolding supports
with_model model_name [] = []
with_model model_name (peer ∷ peers) =
    let rest = with_model model_name peers in
    if supports model_name peer.supported_models then peer ∷ rest else rest

unfoldable pub peers_for_model : (model_name : String) → Peers → List PeerInfo
unfolding with_model active_peers
peers_for_model model_name peers = with_model model_name (active_peers peers)

unfoldable pub remove_peer : (peer_id : String) → Peers → Bool × Peers
remove_peer peer_id peers = (contains peer_id peers, erase peer_id peers)
