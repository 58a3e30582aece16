-- ===== src/Balancer/Best.antt =====
-- The nodes of a pipeline are the best ones.
use Prim.Native.String.{String}
use decentralized_llm.Base.{
  ℕ, zero, suc, ◌+◌, ◌<◌, ◌≤◌, ◌≡◌, ◌==◌, refl, subst, ◌⊎◌, ◌↔◌, inl, inr, Option, none, some, true,
  List, [], ◌∷◌, arith, leb, ==_iff, Bool-cases,
}
use decentralized_llm.Base.Dict.{string_eq}
use decentralized_llm.Balancer.{
  ShardNode, Nodes, is_available, fits, candidates, max_score, with_score, choose, select,
  select_from, then_pipeline, select_pipeline,
}

unfoldable pub Among : ShardNode → List ShardNode → Type 0
Among n [] = ⊥
Among n (m ∷ nodes) = (n ≡ m) ⊎ Among n nodes

-- one of the registered nodes
unfoldable pub IsNode : ShardNode → Nodes → Type 0
IsNode n [] = ⊥
IsNode n ((id, m) ∷ nodes) = (n ≡ m) ⊎ IsNode n nodes

candidates-fits :
    (model_name : String) (i : ℕ) (nodes : Nodes) (n : ShardNode)
    → Among n (candidates model_name i nodes)
    → (fits model_name i n ≡ true) × IsNode n nodes
unfolding candidates Among IsNode
candidates-fits model_name i [] n h = absurd h
candidates-fits model_name i ((id, m) ∷ nodes) n h =
    ground (arith, candidates-fits model_name i nodes n)

fits-candidates :
    (model_name : String) (i : ℕ) (nodes : Nodes) (n : ShardNode)
    → IsNode n nodes
    → fits model_name i n ≡ true
    → Among n (candidates model_name i nodes)
unfolding candidates Among IsNode
fits-candidates model_name i [] n h ok = absurd h
fits-candidates model_name i ((id, m) ∷ nodes) n h ok = elim h [
  | inl same ↦ rw (subst (λ k. fits model_name i k ≡ true) same ok) (inl same)
  | inr later ↦ elim (Bool-cases (fits model_name i m)) [
    | inl good ↦ rw good (inr (fits-candidates model_name i nodes n later ok))
    | inr bad ↦ rw bad (fits-candidates model_name i nodes n later ok)
  ]
]

module _ (score : ShardNode → ℕ) where
  le-max_score :
      (nodes : List ShardNode) (n : ShardNode) → Among n nodes → score n ≤ max_score score nodes
  unfolding max_score Among
  le-max_score [] n h = absurd h
  le-max_score (m ∷ nodes) n (inl same) = rw same (ground arith)
  le-max_score (m ∷ nodes) n (inr later) = ground (arith, le-max_score nodes n later)

  with_score-Among :
      (best : ℕ) (nodes : List ShardNode) (n : ShardNode)
      → Among n (with_score score best nodes)
      → (score n ≡ best) × Among n nodes
  unfolding with_score Among
  with_score-Among best [] n h = absurd h
  with_score-Among best (m ∷ nodes) n h = ground (arith, with_score-Among best nodes n)

  with_score-max :
      (nodes : List ShardNode) (best : ℕ) (n : ShardNode)
      → Among n nodes
      → score n ≡ best
      → Among n (with_score score best nodes)
  unfolding with_score Among
  with_score-max [] best n h top = absurd h
  with_score-max (m ∷ nodes) best n (inl same) top =
      rw (subst (λ k. (score k == best) ≡ true) same ((==_iff (score n) best).1 top)) (inl same)
  with_score-max (m ∷ nodes) best n (inr later) top = elim (Bool-cases (score m == best)) [
    | inl good ↦ rw good (inr (with_score-max nodes best n later top))
    | inr bad ↦ rw bad (with_score-max nodes best n later top)
  ]

  -- the best of some nodes
  has_max :
      (m : ShardNode) (nodes : List ShardNode)
      → (n : ShardNode) × Among n (m ∷ nodes) × (score n ≡ max_score score (m ∷ nodes))
  unfolding max_score Among
  has_max m [] = (m, inl refl, ground arith)
  has_max m (k ∷ nodes) =
      let (n, among, top) = has_max k nodes in
      elim (Bool-cases (leb (score n) (score m))) [
        | inl less ↦ (m, inl refl, ground arith)
        | inr more ↦ (n, inr among, ground arith)
      ]

  -- what `choose` makes of some nodes
  Chosen : List ShardNode → Option ShardNode → Type 0
  Chosen nodes none = (m : ShardNode) → Among m nodes → ⊥
  Chosen nodes (some n) = Among n nodes

  -- the best of some nodes, or none of none
  IsTop : List ShardNode → Option ShardNode → Type 0
  IsTop nodes none = (m : ShardNode) → Among m nodes → ⊥
  IsTop nodes (some n) = Among n nodes × ((m : ShardNode) → Among m nodes → score m ≤ score n)

  with_score-IsTop :
      (nodes : List ShardNode) (o : Option ShardNode)
      → Chosen (with_score score (max_score score nodes) nodes) o
      → IsTop nodes o
  unfolding Chosen IsTop Among
  with_score-IsTop [] none h = λ m among. among
  with_score-IsTop (k ∷ nodes) none h =
      let (n, among, top) = has_max k nodes in
      absurd (h n (with_score-max (k ∷ nodes) (max_score score (k ∷ nodes)) n among top))
  with_score-IsTop nodes (some n) h =
      let (top, among) = with_score-Among (max_score score nodes) nodes n h in
      (among, λ m other. rw top (le-max_score nodes m other))

-- what a node needs for a shard
abbrev pub Fits : (model_name : String) (shard_index : ℕ) → ShardNode → Type 0
Fits model_name i n =
    (n.model_name ≡ model_name) × (n.shard_index ≡ i) × (n.current_load < n.max_load)

fits_iff :
    (model_name : String) (i : ℕ) (n : ShardNode)
    → (fits model_name i n ≡ true) ↔ Fits model_name i n
unfolding fits is_available
fits_iff model_name i n = ground (arith, string_eq.beq_iff n.model_name model_name)

-- a node that a shard may get: none that may get it has a higher score
unfoldable pub IsBest :
    (score : ShardNode → ℕ) (model_name : String) (shard_index : ℕ) → Nodes → ShardNode → Type 0
IsBest score model_name i nodes n =
    IsNode n nodes
    × Fits model_name i n
    × ((m : ShardNode) → IsNode m nodes → Fits model_name i m → score m ≤ score n)

-- no node may get the shard
unfoldable pub HasNone : (model_name : String) (shard_index : ℕ) → Nodes → Type 0
HasNone model_name i nodes = (m : ShardNode) → IsNode m nodes → ¬ Fits model_name i m

unfoldable pub IsSelected :
    (score : ShardNode → ℕ) (model_name : String) (shard_index : ℕ)
    → Nodes
    → Option ShardNode
    → Type 0
IsSelected score model_name i nodes none = HasNone model_name i nodes
IsSelected score model_name i nodes (some n) = IsBest score model_name i nodes n

IsTop-IsSelected :
    (score : ShardNode → ℕ) (model_name : String) (i : ℕ) (nodes : Nodes) (o : Option ShardNode)
    → IsTop score (candidates model_name i nodes) o
    → IsSelected score model_name i nodes o
unfolding IsTop IsSelected IsBest HasNone
IsTop-IsSelected score model_name i nodes none h = λ m node fine.
    h m (fits-candidates model_name i nodes m node ((fits_iff model_name i m).1 fine))
IsTop-IsSelected score model_name i nodes (some n) (among, top) =
    let (good, node) = candidates-fits model_name i nodes n among in
    (
      node,
      (fits_iff model_name i n).0 good,
      λ m other fine.
          top m (fits-candidates model_name i nodes m other ((fits_iff model_name i m).1 fine)),
    )

-- the nodes of the shards from one on
unfoldable pub AllBest :
    (score : ShardNode → ℕ) (model_name : String) (shards shard_index : ℕ)
    → Nodes
    → List ShardNode
    → Type 0
AllBest score model_name zero i nodes [] = Unit
AllBest score model_name zero i nodes (n ∷ ns) = ⊥
AllBest score model_name (suc shards) i nodes [] = ⊥
AllBest score model_name (suc shards) i nodes (n ∷ ns) =
    IsBest score model_name i nodes n × AllBest score model_name shards (suc i) nodes ns

-- the best node for each of the shards, or a shard that no node may get
unfoldable pub IsPipeline :
    (score : ShardNode → ℕ) (model_name : String) (shards shard_index : ℕ)
    → Nodes
    → Option (List ShardNode)
    → Type 0
IsPipeline score model_name shards i nodes none =
    (j : ℕ) × (i ≤ j) × (j < i + shards) × HasNone model_name j nodes
IsPipeline score model_name shards i nodes (some ns) = AllBest score model_name shards i nodes ns

then_pipeline-IsPipeline :
    (score : ShardNode → ℕ) (model_name : String) (shards i : ℕ) (nodes : Nodes)
    (o : Option ShardNode) (rest : Option (List ShardNode))
    → IsSelected score model_name i nodes o
    → IsPipeline score model_name shards (suc i) nodes rest
    → IsPipeline score model_name (suc shards) i nodes (then_pipeline o rest)
unfolding then_pipeline IsSelected IsPipeline AllBest
then_pipeline-IsPipeline score model_name shards i nodes none rest h p =
    (i, omega arith, omega arith, h)
then_pipeline-IsPipeline score model_name shards i nodes (some n) none h (j, low, high, p) =
    (j, omega arith, omega arith, p)
then_pipeline-IsPipeline score model_name shards i nodes (some n) (some ns) h p = (h, p)

module _ (score : ShardNode → ℕ) (choice : ℕ → ShardNode → List ShardNode → ShardNode)
    (choice-Among : (draw : ℕ) (n : ShardNode) (nodes : List ShardNode)
      → Among (choice draw n nodes) (n ∷ nodes)) where
  choose-Chosen :
      (draw : ℕ) (nodes : List ShardNode) → Chosen score nodes (choose score choice draw nodes)
  unfolding choose Chosen Among
  choose-Chosen draw [] = λ m among. among
  choose-Chosen draw (n ∷ nodes) = choice-Among draw n nodes

  select-IsSelected :
      (draw : ℕ) (model_name : String) (i : ℕ) (nodes : Nodes)
      → IsSelected score model_name i nodes (select score choice draw model_name i nodes)
  unfolding select
  select-IsSelected draw model_name i nodes =
      IsTop-IsSelected score model_name i nodes _
        (with_score-IsTop score (candidates model_name i nodes) _ (choose-Chosen draw _))

  select_from-IsPipeline :
      (shards : ℕ) (model_name : String) (i : ℕ) (nodes : Nodes)
      → IsPipeline score model_name shards i nodes
          (select_from score choice shards model_name i nodes)
  unfolding select_from IsPipeline AllBest
  select_from-IsPipeline zero model_name i nodes = tt
  select_from-IsPipeline (suc shards) model_name i nodes =
      then_pipeline-IsPipeline score model_name shards i nodes _ _
        (select-IsSelected i model_name i nodes)
        (select_from-IsPipeline shards model_name (suc i) nodes)

  -- If random.choice returns one of the nodes it is given: select_pipeline returns for each shard,
  -- in order, a registered node of the model and the shard that is available and whose score no
  -- other such node exceeds; it returns None only if for one of the shards there is no such node.
  pub select_pipeline-IsPipeline :
      (model_name : String) (num_shards : ℕ) (nodes : Nodes)
      → IsPipeline score model_name num_shards 0 nodes
          (select_pipeline score choice model_name num_shards nodes)
  unfolding select_pipeline
  select_pipeline-IsPipeline model_name num_shards nodes =
      select_from-IsPipeline num_shards model_name 0 nodes
