-- ===== src/Jobs/Verdict.antt =====
-- node/verifier.py: `ResultVerifier`. A string is the list of its code points.
use decentralized_llm.Base.{
  ℕ, suc, ◌+◌, ◌*◌, ◌/◌, Option, none, some, Bool, true, false, not, ◌&&◌, ◌||◌, List, [], ◌∷◌, ltb,
  ◌==◌, if◌then◌else◌,
}
use decentralized_llm.Base.Bytes.{bytes_beq}

-- SHA-256, UTF-8 and the test of `str.split` for white space
pub record Text : Type 0 where
  pub sha256 : List ℕ → List ℕ
  pub encode : List ℕ → List ℕ
  pub decode : List ℕ → Option (List ℕ)
  pub is_space : ℕ → Bool

-- the reasons of `verify_result`
pub data Verdict : Type 0 where
  valid empty_result not_utf8 wrong_hash too_long bad_cid : Verdict

-- `cid.startswith(prefix)`
unfoldable pub starts_with : (prefix cid : List ℕ) → Bool
starts_with [] cid = true
starts_with (p ∷ ps) [] = false
starts_with (p ∷ ps) (c ∷ cs) = (p == c) && starts_with ps cs

-- "bafy", "bafk" and "Qm"
unfoldable pub verify_cid_format : (cid : List ℕ) → Bool
unfolding starts_with
verify_cid_format [] = false
verify_cid_format (c ∷ cs) =
    starts_with (98 ∷ 97 ∷ 102 ∷ 121 ∷ []) (c ∷ cs)
    || (starts_with (98 ∷ 97 ∷ 102 ∷ 107 ∷ []) (c ∷ cs) || starts_with (81 ∷ 109 ∷ []) (c ∷ cs))

module _ (text : Text) where
  -- `len(text.split())`; `inside` says whether the character before is in a word
  unfoldable pub words : (inside : Bool) → List ℕ → ℕ
  words inside [] = 0
  words true (c ∷ cs) = words (not (text.is_space c)) cs
  words false (c ∷ cs) =
      let rest = words (not (text.is_space c)) cs in if text.is_space c then rest else suc rest

  -- `math.ceil(len(text.split()) * 1.3)`
  unfoldable pub estimate_tokens : List ℕ → ℕ
  unfolding words
  estimate_tokens result_text = (words false result_text * 13 + 9) / 10

  unfoldable pub verify_decoded :
      (result_bytes : List ℕ)
      → Option (List ℕ)
      → (claimed_hash result_cid : List ℕ) (max_tokens : ℕ) → Verdict
  unfolding estimate_tokens verify_cid_format
  verify_decoded result_bytes none claimed_hash result_cid max_tokens = not_utf8
  verify_decoded result_bytes (some result_text) claimed_hash result_cid max_tokens =
      if bytes_beq (text.sha256 result_bytes) claimed_hash
      then (if ltb max_tokens (estimate_tokens result_text)
          then too_long
          else (if verify_cid_format result_cid then valid else bad_cid))
      else wrong_hash

  unfoldable pub verify_result :
      (result_bytes claimed_hash result_cid : List ℕ) (max_tokens : ℕ) → Verdict
  unfolding verify_decoded
  verify_result [] claimed_hash result_cid max_tokens = empty_result
  verify_result (b ∷ bs) claimed_hash result_cid max_tokens =
      verify_decoded (b ∷ bs) (text.decode (b ∷ bs)) claimed_hash result_cid max_tokens
