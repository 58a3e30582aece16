-- ===== src/Gossip/Spread.antt =====
-- A message reaches a node at most once while the node remembers it.
use Prim.Native.String.{String}
use Prim.Native.Nat.{min}
use decentralized_llm.Base.{
  ℕ, zero, suc, ◌≡◌, refl, sym, ap, subst, ◌∙◌, ◌⊎◌, inl, inr, Option, none, some, Bool, true,
  false, List, [], ◌∷◌, ◌++◌, arith, if◌then◌else◌, length, if_ind, Option-cases, Bool-cases,
}
use decentralized_llm.Base.Dict.{Dict, lookup, contains, insert, lookup-insert, string_eq}
use decentralized_llm.Gossip.{
  GossipMessage, GossipNode, Network, keep_recent, prune_seen, accept, candidates, forwarded,
  send_all, receive, receive_message,
}

-- how often a message stands in an inbox
unfoldable pub copies : String → List GossipMessage → ℕ
copies id [] = 0
copies id (msg ∷ inbox) =
    if string_eq.beq msg.msg_id id then suc (copies id inbox) else copies id inbox

-- whether a node remembers a message
abbrev pub remembers : (now : ℕ) (id : String) → Option GossipNode → Bool
remembers now id none = false
remembers now id (some n) = contains id (keep_recent now n.seen_ttl_seconds n.seen)

abbrev pub received : String → Option GossipNode → ℕ
received id none = 0
received id (some n) = copies id n.inbox

-- a node stays as it was for the message, or it did not remember it and has got it once
abbrev pub IsSpread : (now : ℕ) (id : String) (before after : Option GossipNode) → Type 0
IsSpread now id before after =
    ((remembers now id after ≡ remembers now id before) × (received id after ≡ received id before))
    ⊎ ((remembers now id before ≡ false)
        × (remembers now id after ≡ true)
        × (received id after ≡ suc (received id before)))

IsSpread-trans :
    (now : ℕ) (id : String) (a b c : Option GossipNode)
    → IsSpread now id a b
    → IsSpread now id b c
    → IsSpread now id a c
IsSpread-trans now id a b c (inl (r, k)) (inl (r', k')) = inl (r' ∙ r, k' ∙ k)
IsSpread-trans now id a b c (inl (r, k)) (inr (fresh, known, more)) =
    inr (sym r ∙ fresh, known, more ∙ ap suc k)
IsSpread-trans now id a b c (inr (fresh, known, more)) (inl (r, k)) =
    inr (fresh, r ∙ known, k ∙ more)
IsSpread-trans now id a b c (inr (fresh, known, more)) (inr (fresh', known', more')) =
    absurd (ground (arith, known, fresh'))

keep_recent_twice :
    (now s : ℕ) (seen : Dict String ℕ)
    → keep_recent now s (keep_recent now s seen) ≡ keep_recent now s seen
unfolding keep_recent
keep_recent_twice now s [] = refl
keep_recent_twice now s ((id, ts) ∷ seen) = ground (arith, keep_recent_twice now s seen)

contains-keep_recent :
    (now s : ℕ) (id : String) (seen : Dict String ℕ)
    → contains id (keep_recent now s (insert id now seen)) ≡ true
unfolding keep_recent insert lookup
contains-keep_recent now s id [] = ground (arith, string_eq.beq_iff id id)
contains-keep_recent now s id ((j, ts) ∷ seen) =
    ground (arith, contains-keep_recent now s id seen, string_eq.beq_iff j id)

copies-append_one :
    (id : String) (inbox : List GossipMessage) (msg : GossipMessage)
    → msg.msg_id ≡ id
    → copies id (inbox ++ msg ∷ []) ≡ suc (copies id inbox)
unfolding copies
copies-append_one id [] msg same = ground (arith, string_eq.beq_iff msg.msg_id id)
copies-append_one id (x ∷ inbox) msg same = ground (arith, copies-append_one id inbox msg same)

insert-IsSpread :
    (now : ℕ) (id p q : String) (n n' : GossipNode) (net : Network)
    → lookup p net ≡ some n
    → IsSpread now id (some n) (some n')
    → IsSpread now id (lookup q net) (lookup q (insert p n' net))
insert-IsSpread now id p q n n' net known spread = elim (Bool-cases (string_eq.beq p q)) [
  | inl same ↦
      let before : some n ≡ lookup q net =
        sym known ∙ ap (λ k. lookup k net) ((string_eq.beq_iff p q).0 same) in
      let after : some n' ≡ lookup q (insert p n' net) =
        sym (lookup-insert p q n' net ∙ rw same refl) in
      subst (λ o. IsSpread now id o (lookup q (insert p n' net))) before
        (subst (IsSpread now id (some n)) after spread)
  | inr other ↦
      let after : lookup q net ≡ lookup q (insert p n' net) =
        sym (lookup-insert p q n' net ∙ rw other refl) in
      subst (IsSpread now id (lookup q net)) after (inl (refl, refl))
]

prune_seen-IsSpread :
    (now : ℕ) (id : String) (n : GossipNode) → IsSpread now id (some n) (some (prune_seen now n))
unfolding prune_seen
prune_seen-IsSpread now id n =
    inl (ap (contains id) (keep_recent_twice now n.seen_ttl_seconds n.seen), refl)

accept-IsSpread :
    (now : ℕ) (msg : GossipMessage) (n : GossipNode)
    → contains msg.msg_id (prune_seen now n).seen ≡ false
    → IsSpread now msg.msg_id (some n) (some (accept now msg (prune_seen now n)))
unfolding prune_seen accept
accept-IsSpread now msg n fresh = inr (
  fresh,
  contains-keep_recent now n.seen_ttl_seconds msg.msg_id
      (keep_recent now n.seen_ttl_seconds n.seen),
  copies-append_one msg.msg_id n.inbox msg refl,
)

send_all-IsSpread :
    (now : ℕ) (id : String) (deliver : String → Network → Network)
    → ((p : String) (w : Network) (q : String)
        → IsSpread now id (lookup q w) (lookup q (deliver p w)))
    → (peers : List String) (net : Network) (q : String)
    → IsSpread now id (lookup q net) (lookup q (send_all deliver peers net))
unfolding send_all
send_all-IsSpread now id deliver each [] net q = inl (refl, refl)
send_all-IsSpread now id deliver each (p ∷ peers) net q =
    IsSpread-trans now id (lookup q net) (lookup q (deliver p net)) _ (each p net q)
      (send_all-IsSpread now id deliver each peers (deliver p net) q)

module _ (sample : Network → ℕ → List String → List String) (now : ℕ) where
  receive-IsSpread :
      (ttl : ℕ) (msg : GossipMessage) (p : String) (net : Network) (q : String)
      → IsSpread now msg.msg_id (lookup q net) (lookup q (receive sample now ttl msg p net).1)
  unfolding receive forwarded
  receive-IsSpread zero msg p net q = elim (Option-cases (lookup p net)) [
    | inl unknown ↦ rw (unknown, receive) (inl (refl, refl))
    | inr (n, known) ↦
        rw (known, receive)
          (insert-IsSpread now msg.msg_id p q n (prune_seen now n) net known
            (prune_seen-IsSpread now msg.msg_id n))
  ]
  receive-IsSpread (suc ttl) msg p net q = elim (Option-cases (lookup p net)) [
    | inl unknown ↦ rw (unknown, receive) (inl (refl, refl))
    | inr (n, known) ↦
        let net' : Network = insert p (accept now msg (prune_seen now n)) net in
        let others : List String = candidates msg.sender_id n.peers in
        rw (known, receive)
          (if_ind {A = Bool × Network} (λ r. IsSpread now msg.msg_id (lookup q net) (lookup q r.1))
            (contains msg.msg_id (prune_seen now n).seen) _ _
            (λ seen.
              insert-IsSpread now msg.msg_id p q n (prune_seen now n) net known
                (prune_seen-IsSpread now msg.msg_id n))
            (λ fresh.
              IsSpread-trans now msg.msg_id (lookup q net) (lookup q net') _
                (insert-IsSpread now msg.msg_id p q n (accept now msg (prune_seen now n)) net known
                  (accept-IsSpread now msg n fresh))
                (send_all-IsSpread now msg.msg_id
                  (λ k w. (receive sample now ttl (forwarded p ttl msg) k w).1)
                  (λ k w r. receive-IsSpread ttl (forwarded p ttl msg) k w r)
                  (sample net' (min n.fanout (length others)) others) net' q)))
  ]

  -- Whichever peers are chosen, while a message spreads through the network: a node that remembers
  -- it does not get it again, and any other node gets it once at most, and remembers it then.
  pub receive_message-IsSpread :
      (msg : GossipMessage) (p : String) (net : Network) (q : String)
      → IsSpread now msg.msg_id (lookup q net) (lookup q (receive_message sample now msg p net).1)
  unfolding receive_message
  receive_message-IsSpread msg p net q = receive-IsSpread msg.ttl msg p net q
