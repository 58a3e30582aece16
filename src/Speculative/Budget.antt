-- ===== src/Speculative/Budget.antt =====
-- Decoding stops, and stays within its budget of tokens.
use Prim.Native.Nat.{min}
use decentralized_llm.Base.{
  ℕ, zero, suc, ◌+◌, ◌-◌, ◌≤◌, ◌<◌, ◌≡◌, refl, ap, sym, ◌∙◌, Option, none, some, Bool, true, false,
  List, [], ◌∷◌, ◌++◌, arith, ltb, ◌==◌, length, length-take, length-append, take, Bool-cases, inl,
  inr, if_ind, Result, ok,
}
use decentralized_llm.Speculative.{
  DecodeStats, no_stats, decode_speculative, Verdict, Models, accept_from, verify_and_accept,
  generate_draft, decode_vanilla, decode_round, update_stats, has_token, eos_hit, decode_loop,
}

take-add_one : {A : Type 0} (n : ℕ) (x : A) (xs : List A) → take (n + 1) (x ∷ xs) ≡ x ∷ take n xs
take-add_one n x xs = let e : n + 1 ≡ suc n = omega arith in ap (λ k. take k (x ∷ xs)) e

-- what a verdict says of the drafts that it looked at
abbrev pub Judged : List ℕ → Verdict → Type 0
Judged left v =
    (length v.collected ≡ v.n_accepted + 1)
    × (v.n_accepted + v.n_rejected ≤ length left)
    × (v.n_rejected ≡ v.n_corrections)
    × (take v.n_accepted v.collected ≡ take v.n_accepted left)

-- From any place on, the acceptance loop collects the accepted drafts and one token more: the
-- accepted tokens are the first drafts in order, the accepted and rejected ones are at most the
-- drafts that are left, and each rejection has a correction.
pub accept_from-counts :
    (m : Models) (context drafts : List ℕ) (i : ℕ) (left : List ℕ)
    → Judged left (accept_from m context drafts i left)
unfolding accept_from
accept_from-counts m context drafts i [] = (refl, omega arith, refl, refl)
accept_from-counts m context drafts i (x ∷ left) =
    let (len, seen, fixed, kept) = accept_from-counts m context drafts (i + 1) left in
    if_ind (Judged (x ∷ left)) (m.accepts context drafts i) _ _
      (λ accepted. (
        omega (arith, len),
        omega (arith, seen),
        fixed,
        take-add_one _ x _ ∙ ap (◌∷◌ x) kept ∙ sym (take-add_one _ x left),
      ))
      (λ rejected. (refl, omega arith, refl, refl))

-- The fallback returns at most the budget, and stops short of it only where the end token came.
length-decode_vanilla :
    (m : Models) (n : ℕ) (context : List ℕ) → length (decode_vanilla m n context) ≤ n
unfolding decode_vanilla
length-decode_vanilla m zero context = omega arith
length-decode_vanilla m (suc n) context =
    ground (arith, length-decode_vanilla m n (context ++ m.target_token context ∷ []))

-- a round keeps a token, and no more than the budget
length-decode_round :
    (m : Models) (k left : ℕ) (context : List ℕ)
    → (length (decode_round m k left context).0 ≤ left)
      × (0 < left → 0 < length (decode_round m k left context).0)
unfolding decode_round verify_and_accept
length-decode_round m k left context =
    let drafts = generate_draft m k context in
    let len = (accept_from-counts m context drafts 0 drafts).0 in
    let taken = length-take left (accept_from m context drafts 0 drafts).collected in
    (omega (arith, taken), λ some_left. omega (arith, taken, len))

has_token-append :
    (eos : ℕ) (xs ys : List ℕ) → has_token eos (xs ++ ys) ≡ false → has_token eos ys ≡ false
unfolding has_token
has_token-append eos [] ys h = h
has_token-append eos (x ∷ xs) ys h = ground (arith, has_token-append eos xs ys)

eos_hit-append : (m : Models) (xs ys : List ℕ) → eos_hit m (xs ++ ys) ≡ false → eos_hit m ys ≡ false
unfolding eos_hit
eos_hit-append m xs ys h = go m.eos_token_id h
  where
    go :
        (eos : Option ℕ)
        → (elim eos [ none ↦ false | some e ↦ has_token e (xs ++ ys) ]) ≡ false
        → (elim eos [ none ↦ false | some e ↦ has_token e ys ]) ≡ false
    go none h = refl
    go (some e) h = has_token-append e xs ys h

-- what a run promises
pub record Decoded (m : Models) (n : ℕ) (r : Option (Result (List ℕ × DecodeStats))) : Type 0 where
  pub tokens : List ℕ
  pub last : DecodeStats
  pub returned : r ≡ some (ok (tokens, last))
  pub fits : length tokens ≤ n
  pub full : eos_hit m tokens ≡ false → length tokens ≡ n

decode_loop-Decoded :
    (m : Models) (steps fuel left : ℕ) (context : List ℕ) (stats : DecodeStats)
    → 0 < steps
    → left ≤ fuel
    → Decoded m left (decode_loop m steps fuel left context stats)
unfolding decode_loop
decode_loop-Decoded m steps zero left context stats some_draft enough =
    let spent : ltb 0 left ≡ false = ground arith in
    rw spent (record {
      tokens = [];
      last = stats;
      returned = refl;
      fits = omega arith;
      full = λ _. ground arith;
    })
decode_loop-Decoded m steps (suc fuel) left context stats some_draft enough =
    elim (Bool-cases (ltb 0 left)) [
      | inr spent ↦ rw spent (record {
        tokens = [];
        last = stats;
        returned = refl;
        fits = omega arith;
        full = λ _. ground arith;
      })
      | inl open_budget ↦
          let (kept, v) = decode_round m (min steps left) left context in
          let drafts : (min steps left == 0) ≡ false = ground arith in
          let size = length-decode_round m (min steps left) left context in
          let stats' = update_stats v.n_accepted v.n_rejected v.n_corrections stats in
          let later =
            decode_loop-Decoded m steps fuel (left - length kept) (context ++ kept) stats'
              some_draft (ground (arith, size)) in
          rw open_budget (
            rw drafts (
              if_ind (Decoded m left) (eos_hit m kept) _ _
                (λ stop. record {
                  tokens = kept;
                  last = stats';
                  returned = refl;
                  fits = size.0;
                  full = λ none_hit. absurd (ground arith);
                })
                (λ going. rw later.returned (record {
                  tokens = kept ++ later.tokens;
                  last = later.last;
                  returned = refl;
                  fits = omega (arith, size.0, later.fits, length-append kept later.tokens);
                  full = λ none_hit. omega (
                    arith,
                    size.0,
                    later.full (eos_hit-append m kept later.tokens none_hit),
                    length-append kept later.tokens,
                  );
                }))))
    ]

decode_vanilla-full :
    (m : Models) (n : ℕ) (context : List ℕ)
    → eos_hit m (decode_vanilla m n context) ≡ false
    → length (decode_vanilla m n context) ≡ n
unfolding decode_vanilla
decode_vanilla-full m zero context none_hit = refl
decode_vanilla-full m (suc n) context none_hit =
    let token = m.target_token context in
    let rest = decode_vanilla m n (context ++ token ∷ []) in
    elim (Bool-cases (eos_hit m (token ∷ []))) [
      | inl stop ↦ absurd (ground (arith, stop, none_hit))
      | inr going ↦ ground (
        arith,
        going,
        none_hit,
        decode_vanilla-full m n (context ++ token ∷ []),
        eos_hit-append m (token ∷ []) rest,
      )
    ]

-- With a positive number of draft steps, decoding returns, with or without a draft model: its
-- tokens are at most the budget, and exactly as many if the end token is not among them.
pub decode_speculative-Decoded :
    (m : Models) (has_draft : Bool) (max_tokens draft_steps : ℕ) (input_ids : List ℕ)
    → 0 < draft_steps
    → Decoded m max_tokens (decode_speculative m has_draft max_tokens draft_steps input_ids)
unfolding decode_speculative
decode_speculative-Decoded m true max_tokens draft_steps input_ids some_draft =
    decode_loop-Decoded m draft_steps max_tokens max_tokens input_ids no_stats some_draft
      (omega arith)
decode_speculative-Decoded m false max_tokens draft_steps input_ids some_draft = record {
  tokens = decode_vanilla m max_tokens input_ids;
  last = no_stats;
  returned = refl;
  fits = length-decode_vanilla m max_tokens input_ids;
  full = decode_vanilla-full m max_tokens input_ids;
}
