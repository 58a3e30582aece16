-- ===== src/Peers/Tests.antt =====
-- One peer that stays silent.
use decentralized_llm.Base.{◌+◌, ◌≡◌, refl, some, [], ◌∷◌, ltb, leb, ◌&&◌, if◌then◌else◌}
use decentralized_llm.Base.Dict.{string_eq, lookup}
use decentralized_llm.Peers.{PeerInfo, Peers, dead_after_missed, status_of, status, peers_for_model}
use decentralized_llm.Peers.Liveness.{IsKeyed, times, missed, ticks, ticks-status}

abbrev peer : PeerInfo
peer = record {
  peer_id = "a";
  host = "h";
  port = 1;
  last_seen = 0;
  missed_heartbeats = 1;
  supported_models = "m" ∷ [];
  stake_lamports = 0;
}

abbrev one_peer : Peers
one_peer = ("a", peer) ∷ []

dies_once : (ticks 9 one_peer).0 ≡ "a" ∷ []
unfolding ticks
dies_once = refl

serves_model : peers_for_model "m" one_peer ≡ peer ∷ []
unfolding peers_for_model lookup
serves_model = refl

ticks-status_example :
    (status "a" (ticks 4 one_peer).1 ≡ some (status_of (1 + 4)))
    × (times "a" (ticks 4 one_peer).0
        ≡ (if ltb 1 dead_after_missed && leb dead_after_missed (1 + 4) then 1 else 0))
unfolding IsKeyed missed lookup
ticks-status_example = ticks-status 4 one_peer "a" 1 (refl, refl, tt) refl
