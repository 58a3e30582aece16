-- ===== src/Balancer/Tests.antt =====
-- Two shards: the better node of the first, and a full one for the second until its job ends.
use Prim.Native.String.{String}
use decentralized_llm.Base.{ℕ, ◌≡◌, refl, inl, none, some, List, [], ◌∷◌, negsuc}
use decentralized_llm.Base.Dict.{lookup, insert, string_eq}
use decentralized_llm.Balancer.{
  ShardNode, Nodes, is_available, fits, candidates, max_score, with_score, choose, select,
  then_pipeline, select_from, select_pipeline, changed_load, update_load,
}
use decentralized_llm.Balancer.Best.{Among, IsPipeline, select_pipeline-IsPipeline}

abbrev node : String → ℕ → ℕ → ℕ → ShardNode
node id shard load reputation = record {
  node_id = id;
  shard_index = shard;
  model_name = "m";
  current_load = load;
  max_load = 2;
  reputation = reputation;
  avg_latency_ms = 500;
}

abbrev nodes : Nodes
nodes =
    ("a", node "a" 0 1 3)
    ∷ ("b", node "b" 0 0 7)
    ∷ ("c", node "c" 0 2 9)
    ∷ ("d", node "d" 1 2 5)
    ∷ []

abbrev by_reputation : ShardNode → ℕ
by_reputation n = n.reputation

abbrev first : ℕ → ShardNode → List ShardNode → ShardNode
first draw n rest = n

first-Among :
    (draw : ℕ) (n : ShardNode) (rest : List ShardNode) → Among (first draw n rest) (n ∷ rest)
unfolding Among
first-Among draw n rest = inl refl

is_full : select_pipeline by_reputation first "m" 2 nodes ≡ none
unfolding select_pipeline select_from select then_pipeline choose with_score max_score candidates
    fits is_available
is_full = refl

takes_best :
    select_pipeline by_reputation first "m" 2 (update_load "d" (negsuc 0) nodes)
    ≡ some (node "b" 0 0 7 ∷ node "d" 1 1 5 ∷ [])
unfolding select_pipeline select_from select then_pipeline choose with_score max_score candidates
    fits is_available update_load changed_load lookup insert
takes_best = refl

select_pipeline-IsPipeline_example :
    IsPipeline by_reputation "m" 2 0 nodes (select_pipeline by_reputation first "m" 2 nodes)
select_pipeline-IsPipeline_example =
    select_pipeline-IsPipeline by_reputation first first-Among "m" 2 nodes
