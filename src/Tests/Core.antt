-- ===== src/Tests/Core.antt =====
-- The theorems on verdicts and on the tally, at concrete inputs.
use mathlib.Core.List.{Permᴰ, Memᴰ}
use khipu_consensus.Prelude.{ℕ, ◌≤◌, ◌≡◌, refl, true, [], ◌∷◌, text, All, length, ◌↔◌, arith}
use khipu_consensus.Prelude.Texts.{decimal, text_eq}
use khipu_consensus.Python.Value.{Value, str, find, nat}
use khipu_consensus.Python.Dict.{Dict}
use khipu_consensus.Python.Dict.Keys.{HasTextKeys}
use khipu_consensus.Python.Error.{ok}
use khipu_consensus.Python.Utf8.{utf8}
use khipu_consensus.Python.Base64.{b64encode}
use khipu_consensus.Python.Host.{encode}
use khipu_consensus.Verdict.{
  canonical_json, statement, pae, pae_bytes, sign_verdict, wire_row, from_dict, verify_verdict,
}
use khipu_consensus.Verdict.Genuine.{IsGenuine, counts_iff}
use khipu_consensus.Verdict.Signing.{honest_check, verify-sign_verdict}
use khipu_consensus.Verdict.Pae.{pae-injective}
use khipu_consensus.Tally.{canonical, row, valid_quorum_counts, tally, ConsensusResult}
use khipu_consensus.Tally.Count.{valid_count}
use khipu_consensus.Tally.Backing.{IsBacker, canonical_is_backed}
use khipu_consensus.Tally.Outcome.{tally-valid_count, tally_perm, tally_resubmit}
use khipu_consensus.Tally.Rows.{HasHash, tally_total}
use khipu_consensus.Tests.{toy, moment, action, row_s, row_u, two_keys, two_rows}
use khipu_consensus.Tests.Evaluation.{
  toy-IsKeyPair, said-ReadsBack, two_keys-HasTextKeys, two_tallied, two_tallied_again,
  two_tallied_swapped,
}

valid_two : valid_quorum_counts (nat 2) (nat 2) ≡ true
unfolding valid_quorum_counts
valid_two = refl

two_rows-HasHash : All HasHash two_rows
unfolding from_dict find text_eq
two_rows-HasHash = (refl, (refl, tt))

canonical_is_backed_example :
    (es : Dict Value) × HasTextKeys es
    × (2 ≤ length es)
    × All (IsBacker toy action two_keys two_rows) es
canonical_is_backed_example =
    canonical_is_backed toy action two_keys two_rows 2 (nat 2) two_tallied.0 two_keys-HasTextKeys
      valid_two two_tallied.1 two_tallied.2

tally-valid_count_example :
    (two_tallied.0.consensus_count ≡ valid_count toy action two_keys two_rows)
    × ((two_tallied.0.decision ≡ canonical) ↔ (2 ≤ valid_count toy action two_keys two_rows))
tally-valid_count_example =
    tally-valid_count toy action two_keys two_rows 2 (nat 2) two_tallied.0 two_keys-HasTextKeys
      valid_two two_tallied.1

tally_perm_example :
    (two_tallied.0.consensus_count ≡ two_tallied_swapped.0.consensus_count)
    × (two_tallied.0.decision ≡ two_tallied_swapped.0.decision)
tally_perm_example =
    tally_perm toy action two_keys two_rows (row row_u ∷ row row_s ∷ []) 2 (nat 2) two_tallied.0
      two_tallied_swapped.0 two_keys-HasTextKeys ∣ Permᴰ.swap refl refl ∣₁ valid_two two_tallied.1
      two_tallied_swapped.1

tally_resubmit_example :
    (two_tallied.0.consensus_count ≡ two_tallied_again.0.consensus_count)
    × (two_tallied.0.decision ≡ two_tallied_again.0.decision)
tally_resubmit_example =
    tally_resubmit toy action two_keys two_rows (row row_u ∷ row row_s ∷ []) 2 (nat 2) two_tallied.0
      two_tallied_again.0 two_keys-HasTextKeys (Memᴰ.tail (Memᴰ.head refl), (Memᴰ.head refl, tt))
      valid_two two_tallied.1 two_tallied_again.1

tally_total_example :
    (r : ConsensusResult) × (tally toy action two_keys two_rows (nat 3) (nat 2) ≡ ok r)
tally_total_example = tally_total toy action two_keys two_rows (nat 3) (nat 2) two_rows-HasHash

counts_iff_example :
    ((verify_verdict toy (from_dict row_s) (str (text "K")) action).counts ≡ true)
    ↔ IsGenuine toy (from_dict row_s) (str (text "K")) action
counts_iff_example = counts_iff toy (from_dict row_s) (str (text "K")) action

signed_s :
    sign_verdict toy
      (str (text "s"))
      action
      (str (text "allow"))
      (str (text "K"))
      (str (text ""))
      (str (text ""))
      (str (text "t"))
      moment
    ≡ ok row_s
unfolding sign_verdict canonical_json statement pae pae_bytes wire_row encode utf8 find text_eq
    b64encode decimal
signed_s = refl

plain : (c : ℕ) → c ≡ 120 → utf8 (115 ∷ c ∷ 97 ∷ []) ≡ ok (115 ∷ c ∷ 97 ∷ [])
unfolding utf8
plain c h = rw h refl

body_pae : pae (str (text "t")) (text "body") ≡ ok (pae_bytes (text "t") (text "body"))
unfolding pae encode utf8
body_pae = refl

-- the row of the first witness, against another action
verify-sign_verdict_example :
    verify_verdict toy (from_dict row_s) (str (text "K")) (str (text "y"))
    ≡ honest_check toy
        (text "s")
        (text "x")
        (text "allow")
        (str (text ""))
        (str (text ""))
        (str (text "t"))
        (str (text "y"))
verify-sign_verdict_example =
    verify-sign_verdict toy (text "s") (text "x") (text "allow") (str (text "K")) (str (text "K"))
      (str (text "")) (str (text "")) (str (text "t")) moment row_s (str (text "y")) refl
      toy-IsKeyPair (said-ReadsBack 120 (plain 120 refl) (omega arith)) signed_s

pae-injective_example :
    (encode (str (text "t")) ≡ encode (str (text "t"))) × (text "body" ≡ text "body")
pae-injective_example =
    pae-injective (str (text "t")) (str (text "t")) (text "body") (text "body")
      (pae_bytes (text "t") (text "body")) body_pae body_pae
