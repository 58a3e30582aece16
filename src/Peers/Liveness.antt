-- ===== src/Peers/Liveness.antt =====
-- A silent peer goes from active to suspected to dead, and its death is reported once.
use Prim.Native.String.{String}
use decentralized_llm.Base.{
  ℕ, zero, suc, ◌+◌, ◌≡◌, refl, ap, ◌∙◌, Option, none, some, true, false, List, [], ◌∷◌, ◌++◌,
  arith, ltb, leb, ◌==◌, ◌&&◌, if◌then◌else◌, Option-cases, inl, inr,
}
use decentralized_llm.Base.Dict.{string_eq, lookup, lookup-insert}
use decentralized_llm.Peers.{PeerInfo, Peers, dead_after_missed, heartbeat, tick, status_of, status}

-- each peer stands under its own id, and no id twice
unfoldable pub IsKeyed : Peers → Type 0
IsKeyed [] = Unit
IsKeyed ((k, peer) ∷ peers) = (k ≡ peer.peer_id) × (lookup k peers ≡ none) × IsKeyed peers

-- how often an id is reported
unfoldable pub times : String → List String → ℕ
times id [] = 0
times id (x ∷ xs) = (if string_eq.beq x id then 1 else 0) + times id xs

unfoldable pub missed : Peers → String → Option ℕ
missed peers id = elim (lookup id peers) [ none ↦ none | some peer ↦ some peer.missed_heartbeats ]

-- one more heartbeat is missed
abbrev one_more : Option ℕ → Option ℕ
one_more none = none
one_more (some n) = some (n + 1)

missed-tick : (peers : Peers) (id : String) → missed (tick peers).1 id ≡ one_more (missed peers id)
unfolding missed tick lookup
missed-tick [] id = refl
missed-tick ((k, peer) ∷ peers) id = ground (arith, missed-tick peers id)

-- 1 if the last heartbeat missed makes the peer dead
abbrev dies : Option ℕ → ℕ
dies none = 0
dies (some n) = if n + 1 == dead_after_missed then 1 else 0

IsKeyed-tick : (peers : Peers) → IsKeyed peers → IsKeyed (tick peers).1
unfolding IsKeyed tick missed
IsKeyed-tick [] v = tt
IsKeyed-tick ((k, peer) ∷ peers) (here, new, rest) =
    (here, ground (arith, missed-tick peers k), IsKeyed-tick peers rest)

times-tick :
    (peers : Peers) (id : String) → IsKeyed peers → times id (tick peers).0 ≡ dies (missed peers id)
unfolding IsKeyed tick missed times lookup
times-tick [] id v = refl
times-tick ((k, peer) ∷ peers) id (here, new, rest) =
    ground
      (arith, times-tick peers id rest, string_eq.beq_iff k id, string_eq.beq_iff peer.peer_id id)

-- so many ticks: all reports, and the peers
unfoldable pub ticks : (n : ℕ) → Peers → List String × Peers
unfolding tick
ticks zero peers = ([], peers)
ticks (suc n) peers =
    let (first, peers') = tick peers in
    let (later, peers'') = ticks n peers' in (first ++ later, peers'')

times-append : (id : String) (xs ys : List String) → times id (xs ++ ys) ≡ times id xs + times id ys
unfolding times
times-append id [] ys = omega arith
times-append id (x ∷ xs) ys = omega (arith, times-append id xs ys)

status-missed :
    (peers : Peers) (id : String) (m : ℕ)
    → missed peers id ≡ some m
    → status id peers ≡ some (status_of m)
unfolding status missed
status-missed peers id m known = ground arith

-- A heartbeat of an unknown peer returns False and changes nothing; that of a known one returns
-- True and clears its missed heartbeats, and no other peer's.
pub heartbeat-missed :
    (now : ℕ) (id : String) (peers : Peers)
    → (missed peers id ≡ none → heartbeat now id peers ≡ (false, peers))
      × ((m : ℕ)
          → missed peers id ≡ some m
          → ((heartbeat now id peers).0 ≡ true)
            × ((q : String)
                → missed (heartbeat now id peers).1 q
                  ≡ (if string_eq.beq id q then some 0 else missed peers q)))
unfolding heartbeat missed
heartbeat-missed now id peers = elim (Option-cases (lookup id peers)) [
  | inl unknown ↦ (λ _. rw (unknown, heartbeat) refl, λ m known. absurd (ground arith))
  | inr (peer, found) ↦ (
    λ unknown. absurd (ground arith),
    λ m known.
        let peer' : PeerInfo = record peer { last_seen = now; missed_heartbeats = 0 } in
        rw (found, heartbeat) (refl, λ q. ground (arith, lookup-insert id q peer' peers)),
  )
]

-- After n ticks without a heartbeat, of peers that stand under their own ids, the status of a
-- known peer is the one of n more missed heartbeats, and its id has been reported as dead once if
-- these ticks brought it to the limit, and never otherwise.
pub ticks-status :
    (n : ℕ) (peers : Peers) (id : String) (m : ℕ)
    → IsKeyed peers
    → missed peers id ≡ some m
    → (status id (ticks n peers).1 ≡ some (status_of (m + n)))
      × (times id (ticks n peers).0
          ≡ (if ltb m dead_after_missed && leb dead_after_missed (m + n) then 1 else 0))
unfolding ticks
ticks-status zero peers id m v known = (
  status-missed peers id m known ∙ ap (λ k. some (status_of k)) (omega arith),
  unfold times in ground arith,
)
ticks-status (suc n) peers id m v known =
    let (later, reports) =
      ticks-status n (tick peers).1 id (m + 1) (IsKeyed-tick peers v)
        (missed-tick peers id ∙ ap one_more known) in
    (
      later ∙ ap (λ k. some (status_of k)) (omega arith),
      ground (
        arith,
        reports,
        times-append id (tick peers).0 (ticks n (tick peers).1).0,
        times-tick peers id v,
        ap dies known,
      ),
    )
