-- ===== src/Shards/Tests.antt =====
-- Two peers, of which the first in reputation does not answer.
use Prim.Native.String.{String}
use decentralized_llm.Base.{ℕ, ◌≡◌, refl, arith, some, none, [], ◌∷◌, Option}
use decentralized_llm.Base.Dict.{lookup, insert, string_eq}
use decentralized_llm.CircuitBreaker.{
  closed, Config, Breaker, init, Outcome, returned, failed, refresh, call,
}
use decentralized_llm.Shards.{MultiPeer, connect, ordered_peers, Visit, answered, forward}
use decentralized_llm.Shards.Routing.{first_answer}
use decentralized_llm.Shards.Fallback.{forward-first_answer}
use decentralized_llm.Shards.Exhausted.{ArePositive, AreOpen, connect-ArePositive, forward-AreOpen}

abbrev config : Config
config = record { failure_threshold = 1; success_threshold = 2; timeout_seconds = 60 }

abbrev fresh : Breaker
fresh = record {
  config = config;
  state = closed;
  failure_count = 0;
  success_count = 0;
  last_failure_time = 0;
}

abbrev two : MultiPeer
two = record {
  circuit_breakers = ("a", fresh) ∷ ("b", fresh) ∷ [];
  peer_manager = some (
      (
        "b",
        record {
          peer_id = "b";
          host = "b";
          port = 1;
          last_seen = 0;
          missed_heartbeats = 0;
          supported_models = [];
          stake_lamports = 9;
        },
      )
      ∷ []);
}

connects : connect config ("a" ∷ "b" ∷ []) [] ≡ two.circuit_breakers
unfolding connect init insert
connects = refl

-- the peer with the stake comes first
orders : ordered_peers two ≡ "b" ∷ "a" ∷ []
unfolding ordered_peers lookup
orders = refl

abbrev heard : Option ℕ → Outcome ℕ
heard none = failed
heard (some x) = returned x

abbrev world : String → Visit ℕ
world p = record {
  looked = 1;
  attempt = record { now = 1; later = 2; outcome = heard (lookup p (("a", 7) ∷ [])) };
  after = 3;
}

abbrev silence : String → Visit ℕ
silence p = record {
  looked = 1;
  attempt = record { now = 1; later = 2; outcome = failed };
  after = 3;
}

falls_back : (forward world two).0 ≡ answered 7
unfolding forward lookup insert refresh call
falls_back = refl

forward-first_answer_example :
    (forward world two).0 ≡ first_answer world (ordered_peers two) two.circuit_breakers
forward-first_answer_example = forward-first_answer world two

two-ArePositive : ArePositive two.circuit_breakers
unfolding connect init insert lookup
two-ArePositive =
    connect-ArePositive config ("a" ∷ "b" ∷ []) [] (omega arith)
      (λ q b known. absurd (ground (arith, known)))

forward-AreOpen_example : AreOpen (ordered_peers two) (forward silence two).1.circuit_breakers
unfolding forward lookup insert refresh call
forward-AreOpen_example = forward-AreOpen silence two two-ArePositive refl
