-- ===== src/Balancer.antt =====
-- node/shard_balancer.py: `ShardBalancer`. The score of a node, which the code only compares, and the
-- draws of `random.choice` are parameters.
mod Tests
pub mod Best
use Prim.Native.String.{String}
use Prim.Native.Nat.{max}
use decentralized_llm.Base.{
  ℕ, zero, suc, ◌+◌, ◌-◌, ℤ, pos, negsuc, ◌==◌, Option, none, some, Bool, true, false, ◌&&◌, List,
  [], ◌∷◌, ltb, if◌then◌else◌,
}
use decentralized_llm.Base.Dict.{Dict, lookup, contains, insert, erase, string_eq}

pub record ShardNode : Type 0 where
  pub node_id : String
  pub shard_index : ℕ
  pub model_name : String
  pub current_load : ℕ
  pub max_load : ℕ
  pub reputation : ℕ
  pub avg_latency_ms : ℕ

-- `_nodes`
abbrev pub Nodes : Type 0
Nodes = Dict String ShardNode

unfoldable pub is_available : ShardNode → Bool
is_available n = ltb n.current_load n.max_load

unfoldable pub register : ShardNode → Nodes → Nodes
unfolding insert
register n nodes = insert n.node_id n nodes

unfoldable pub deregister : (node_id : String) → Nodes → Bool × Nodes
unfolding lookup erase
deregister node_id nodes = (contains node_id nodes, erase node_id nodes)

-- the condition on the candidates for a shard
unfoldable pub fits : (model_name : String) (shard_index : ℕ) → ShardNode → Bool
unfolding is_available
fits model_name shard_index n =
    string_eq.beq n.model_name model_name && (n.shard_index == shard_index) && is_available n

unfoldable pub candidates : (model_name : String) (shard_index : ℕ) → Nodes → List ShardNode
unfolding fits
candidates model_name shard_index [] = []
candidates model_name shard_index ((id, n) ∷ nodes) =
    let rest = candidates model_name shard_index nodes in
    if fits model_name shard_index n then n ∷ rest else rest

-- `pipeline.append(node)`, unless a shard has no node
unfoldable pub then_pipeline : Option ShardNode → Option (List ShardNode) → Option (List ShardNode)
then_pipeline (some n) (some pipeline) = some (n ∷ pipeline)
then_pipeline (some n) none = none
then_pipeline none rest = none

module _ (score : ShardNode → ℕ) where
  unfoldable pub max_score : List ShardNode → ℕ
  max_score [] = 0
  max_score (n ∷ nodes) = max (score n) (max_score nodes)

  -- the nodes with a score
  unfoldable pub with_score : ℕ → List ShardNode → List ShardNode
  with_score best [] = []
  with_score best (n ∷ nodes) =
      let rest = with_score best nodes in if score n == best then n ∷ rest else rest

module _ (score : ShardNode → ℕ) (choice : ℕ → ShardNode → List ShardNode → ShardNode) where
  -- `random.choice`, the draw of the number `draw`
  unfoldable pub choose : (draw : ℕ) → List ShardNode → Option ShardNode
  choose draw [] = none
  choose draw (n ∷ nodes) = some (choice draw n nodes)

  unfoldable pub select :
      (draw : ℕ) (model_name : String) (shard_index : ℕ) → Nodes → Option ShardNode
  unfolding candidates max_score with_score choose
  select draw model_name shard_index nodes =
      let found = candidates model_name shard_index nodes in
      choose draw (with_score score (max_score score found) found)

  -- the nodes for the next shards, from one on
  unfoldable pub select_from :
      (shards : ℕ) (model_name : String) (shard_index : ℕ) → Nodes → Option (List ShardNode)
  unfolding select then_pipeline
  select_from zero model_name i nodes = some []
  select_from (suc shards) model_name i nodes =
      let rest = select_from shards model_name (suc i) nodes in
      then_pipeline (select i model_name i nodes) rest

  unfoldable pub select_pipeline :
      (model_name : String) (num_shards : ℕ) → Nodes → Option (List ShardNode)
  unfolding select_from
  select_pipeline model_name num_shards nodes = select_from num_shards model_name 0 nodes

-- the load of a node whose load changes: never below 0
unfoldable pub changed_load : (delta : ℤ) → ℕ → ℕ
changed_load (pos k) load = load + k
changed_load (negsuc k) load = load - suc k

unfoldable pub update_load : (node_id : String) (delta : ℤ) → Nodes → Nodes
unfolding changed_load lookup insert
update_load node_id delta nodes = elim (lookup node_id nodes) [
  | none ↦ nodes
  | some n ↦ insert node_id (record n { current_load = changed_load delta n.current_load }) nodes
]

-- `average` stands for the moving average of two floats
unfoldable pub update_latency :
    (average : ℕ → ℕ → ℕ) (node_id : String) (latency_ms : ℕ) → Nodes → Nodes
unfolding lookup insert
update_latency average node_id latency_ms nodes = elim (lookup node_id nodes) [
  | none ↦ nodes
  | some n ↦
      let latency = average n.avg_latency_ms latency_ms in
      insert node_id (record n { avg_latency_ms = latency }) nodes
]
