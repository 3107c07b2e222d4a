-- ===== src/Tally.antt =====
-- python/khipu_consensus/__init__.py: the count over many verdicts, `tally`.
pub mod Count
pub mod Order
pub mod Outcome
pub mod Rows
pub mod Backing
use khipu_consensus.Prelude.{
  ℕ, suc, ◌+◌, Bool, true, false, not, ◌&&◌, List, [], ◌∷◌, ◌++◌, leb, if◌then◌else◌, Text, text,
  decimal, ℤ, pos,
}
use khipu_consensus.Prelude.Int.{leb_ℤ}
use khipu_consensus.Python.Value.{Value, null, str, int, Fields, truthy, hashable, or_else}
use khipu_consensus.Python.Dict.{Dict, lookup, member}
use khipu_consensus.Python.Error.{Result, ok, err, type_error, attribute_error, ◌>>=◌}
use khipu_consensus.Python.Host.{Host, format}
use khipu_consensus.Verdict.{OrganVerdict, OrganCheck, from_dict, verify_verdict}

-- `"canonical"` and `"rejected"`
pub data Decision : Type 0 where
  canonical rejected : Decision

abbrev pub decision_text : Decision → Text
decision_text canonical = text "canonical"
decision_text rejected = text "rejected"

pub record ConsensusResult : Type 0 where
  pub action_hash : Value
  pub threshold : Value
  pub n : Value
  pub consensus_count : ℕ
  pub decision : Decision
  pub checks : List OrganCheck

-- the property `khipu_consensus`
unfoldable pub ratio : Host → ConsensusResult → Text
ratio H r = decimal r.consensus_count ++ (text "-of-" ++ format H r.n)

-- One item of the list of verdicts: `None`, an `OrganVerdict`, a dict, or any other value, which
-- `from_dict` cannot read.
pub data Item : Type 0 where
  abstain : Item
  verdict : OrganVerdict → Item
  row : Fields → Item
  other : Value → Item

-- `type(v) is int`, which a bool is not
unfoldable pub valid_quorum_counts : Value → Value → Bool
valid_quorum_counts (int t) (int n) = leb_ℤ (pos 1) t && leb_ℤ t n
valid_quorum_counts _ _ = false

-- `count >= threshold` for a count and a threshold that is an `int`
abbrev reaches : ℕ → Value → Bool
reaches count (int t) = leb_ℤ t (pos count)
reaches count _ = false

abbrev pub decide : ℕ → Value → Decision
decide count threshold = if reaches count threshold then canonical else rejected

abbrev pub abstained : OrganCheck
abstained = record {
  organ = null;
  keyid = null;
  valid = false;
  verdict = null;
  action_hash_match = false;
  counts = false;
  reason = text "abstain/timeout";
}

abbrev pub no_public_key : OrganVerdict → OrganCheck
no_public_key v = record {
  organ = v.organ;
  keyid = v.keyid;
  valid = false;
  verdict = null;
  action_hash_match = false;
  counts = false;
  reason = text "no public key";
}

abbrev pub duplicate : OrganVerdict → OrganCheck → OrganCheck
duplicate v chk = record {
  organ = v.organ;
  keyid = v.keyid;
  valid = chk.valid;
  verdict = chk.verdict;
  action_hash_match = chk.action_hash_match;
  counts = false;
  reason = text "duplicate-witness (already counted)";
}

-- The variables of the loop.
pub record Progress : Type 0 where
  pub checks : List OrganCheck
  pub counted : List Value
  pub count : ℕ

abbrev pub outset : Progress
outset = record { checks = []; counted = []; count = 0 }

abbrev pub log : Progress → OrganCheck → Progress
log p chk = record p { checks = p.checks ++ chk ∷ [] }

-- `pubkeys.get(organ, "")`; a value with no hash cannot be looked up
unfoldable pub key_for : Dict Value → Value → Result Value
key_for pubkeys organ =
    if hashable organ then ok (or_else (lookup organ pubkeys) (str (text ""))) else err type_error

module _ (H : Host) (action_hash : Value) (pubkeys : Dict Value) where
  -- the rest of the loop's body, once the verdict has been verified
  unfoldable pub register : Progress → OrganVerdict → OrganCheck → Progress
  register p v chk =
      if chk.counts && member v.organ p.counted
      then log p (duplicate v chk)
      else if chk.counts
      then record {
        checks = p.checks ++ chk ∷ [];
        counted = v.organ ∷ p.counted;
        count = p.count + 1;
      }
      else log p chk

  unfoldable pub settle : Progress → OrganVerdict → Value → Progress
  unfolding register
  settle p v pem =
      if not (truthy pem)
      then log p (no_public_key v)
      else register p v (verify_verdict H v pem action_hash)

  unfoldable pub admit : Progress → OrganVerdict → Result Progress
  admit p v = do pem ← key_for pubkeys v.organ; ok (settle p v pem)

  unfoldable pub step : Progress → Item → Result Progress
  step p abstain = ok (log p abstained)
  step p (verdict v) = admit p v
  step p (row d) = admit p (from_dict d)
  step p (other v) = err attribute_error

  unfoldable pub run : Progress → List Item → Result Progress
  run p [] = ok p
  run p (i ∷ is) = do p' ← step p i; run p' is

  -- the result of a run with this count and these rows
  abbrev pub report : (threshold n : Value) → ℕ → Decision → List OrganCheck → ConsensusResult
  report threshold n count decision checks = record {
    action_hash = action_hash;
    threshold = threshold;
    n = n;
    consensus_count = count;
    decision = decision;
    checks = checks;
  }

  unfoldable pub tally : List Item → (threshold n : Value) → Result ConsensusResult
  tally verdicts threshold n =
      if not (valid_quorum_counts threshold n) then ok (report threshold n 0 rejected []) else do
        p ← run outset verdicts
        ok (report threshold n p.count (decide p.count threshold) p.checks)
