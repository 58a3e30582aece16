-- ===== src/Gossip/Tests.antt =====
-- Three nodes, of which each knows the others.
use Prim.Native.String.{String}
use decentralized_llm.Base.{ℕ, ◌≡◌, refl, List, [], ◌∷◌, take}
use decentralized_llm.Base.Dict.{lookup, insert, string_eq}
use decentralized_llm.Gossip.{GossipMessage, job_announcement, GossipNode, Network, receive_message}
use decentralized_llm.Gossip.Spread.{IsSpread, copies, received, receive_message-IsSpread}

abbrev node : String → List String → GossipNode
node id peers = record {
  node_id = id;
  fanout = 3;
  seen_ttl_seconds = 300;
  peers = peers;
  seen = [];
  inbox = [];
}

abbrev ring : Network
ring =
    ("a", node "a" ("b" ∷ "c" ∷ []))
    ∷ ("b", node "b" ("a" ∷ "c" ∷ []))
    ∷ ("c", node "c" ("a" ∷ "b" ∷ []))
    ∷ []

abbrev first_ones : Network → ℕ → List String → List String
first_ones net n peers = take n peers

abbrev hello : GossipMessage
hello = record {
  msg_id = "m";
  sender_id = "a";
  msg_type = job_announcement;
  payload = "hello";
  timestamp = 7;
  ttl = 5;
}

abbrev after : Network
after = (receive_message first_ones 7 hello "a" ring).1

reaches_all :
    (received "m" (lookup "a" after) ≡ 1)
    × (received "m" (lookup "b" after) ≡ 1)
    × (received "m" (lookup "c" after) ≡ 1)
unfolding receive_message lookup insert copies
reaches_all = (refl, refl, refl)

receive_message-IsSpread_example : IsSpread 7 "m" (lookup "c" ring) (lookup "c" after)
receive_message-IsSpread_example = receive_message-IsSpread first_ones 7 hello "a" ring "c"
