-- ===== src/Spine/Rebind.antt =====
-- What the acceptance of a consensus receipt together with its source binds.
use khipu_consensus.Prelude.{
  ◌≡◌, refl, sym, ◌∙◌, Bool, true, false, not, Option, some, if◌then◌else◌, arith, Text, text,
  Bool-cases, inl, inr,
}
use khipu_consensus.Prelude.Texts.{text_eq}
use khipu_consensus.Python.Value.{
  Value, null, bool, int, float, str, arr, obj, Fields, get, eq, eq-str→≡,
}
use khipu_consensus.Python.Error.{Result, ok, err, >>=-eq-ok, ok-injective}
use khipu_consensus.Spine.{
  SzlReceipt, Reader, Source, require_szl_receipt, consensus_input_digest, consensus_output_digest,
  signed_body, rebind_output, rebind_body, rebind, verify_consensus_receipt,
}

module _ (installed : Option SzlReceipt) (R : Reader) where
  -- What an accepted body holds: the digests of the source.
  record Binds (body : Fields) (s : Source) : Type 0 where
    pub input : Text
    pub output : Text
    pub input_is : consensus_input_digest installed s ≡ ok input
    pub output_is : consensus_output_digest installed s ≡ ok output
    pub input_stated : get body (text "input_digest") ≡ str input
    pub output_stated : get body (text "output_digest") ≡ str output

  rebind_output_cases :
      (body : Fields) (s : Source) (detail : Text)
      → rebind_output installed R body s ≡ ok (true, detail)
      → (o : Text) × (consensus_output_digest installed s ≡ ok o)
        × (get body (text "output_digest") ≡ str o)
  unfolding rebind_output
  rebind_output_cases body s detail h =
      let (o, out, rest) = >>=-eq-ok (consensus_output_digest installed s) _ h in
      (o, out, eq-str→≡ _ o (ground arith))

  input_cases :
      (body : Fields) (s : Source) (i detail : Text)
      → (if not (eq (get body (text "input_digest")) (str i))
          then ok (false, text "input-digest-rebind-mismatch")
          else rebind_output installed R body s)
        ≡ ok (true, detail)
      → (get body (text "input_digest") ≡ str i)
        × (rebind_output installed R body s ≡ ok (true, detail))
  input_cases body s i detail h = elim (Bool-cases (eq (get body (text "input_digest")) (str i))) [
    | inl same ↦ (eq-str→≡ _ i same, ground arith)
    | inr differs ↦ ground arith
  ]

  rebind_body-Binds :
      (body : Fields) (s : Source) (detail : Text)
      → rebind_body installed R (obj body) s ≡ ok (true, detail)
      → Binds body s
  unfolding rebind_body
  rebind_body-Binds body s detail h =
      let (i, input, rest) = >>=-eq-ok (consensus_input_digest installed s) _ h in
      let (stated, rest') = input_cases body s i detail rest in
      let (o, output, out_stated) = rebind_output_cases body s detail rest' in
      record {
        input = i;
        output = o;
        input_is = input;
        output_is = output;
        input_stated = stated;
        output_stated = out_stated;
      }

  rebind_cases :
      (decoded : Result Value) (s : Source) (detail : Text)
      → rebind installed R decoded s ≡ ok (true, detail)
      → (body : Fields) × (decoded ≡ ok (obj body)) × Binds body s
  unfolding rebind rebind_body
  rebind_cases (ok (obj body)) s detail h = (body, refl, rebind_body-Binds body s detail h)
  rebind_cases (ok null) s detail h = cc
  rebind_cases (ok (bool b)) s detail h = cc
  rebind_cases (ok (int z)) s detail h = cc
  rebind_cases (ok (float m k)) s detail h = cc
  rebind_cases (ok (str t)) s detail h = cc
  rebind_cases (ok (arr xs)) s detail h = cc
  rebind_cases (err e) s detail h = ground arith

  rebind_stated :
      (body : Fields) (r : Source) (i o j q : Text)
      → get body (text "input_digest") ≡ str i
      → get body (text "output_digest") ≡ str o
      → consensus_input_digest installed r ≡ ok j
      → consensus_output_digest installed r ≡ ok q
      → rebind installed R (ok (obj body)) r
        ≡ ok (
            if not (text_eq i j)
            then (false, text "input-digest-rebind-mismatch")
            else if not (text_eq o q)
            then (false, text "output-digest-rebind-mismatch")
            else (true, text "ok"))
  unfolding rebind rebind_body rebind_output eq
  rebind_stated body r i o j q hi ho hj hq = elim (Bool-cases (text_eq i j)) [
    | inl same ↦ rw (hj, hi, same, hq, ho) refl
    | inr differs ↦ rw (hj, hi, differs) refl
  ]

  gate :
      (a : Bool × Text) (rest : Result (Bool × Text)) (detail : Text)
      → (if not a.0 then ok a else rest) ≡ ok (true, detail)
      → (a.0 ≡ true) × (rest ≡ ok (true, detail))
  gate (true, w) rest detail h = (refl, h)
  gate (false, w) rest detail h = absurd cc

  -- what is left once the package has accepted the envelope
  abbrev IsAcceptedBy : Fields → Value → SzlReceipt → Text → Type 0
  IsAcceptedBy envelope key S detail =
      (require_szl_receipt installed ≡ ok S) × (S.verify_receipt envelope key ≡ ok (true, detail))

  -- An envelope that is accepted together with a receipt is accepted by the package, and its
  -- signed body states the receipt's two digests.
  verify_consensus_receipt-Binds :
      (envelope : Fields) (key : Value) (s : Source) (detail : Text)
      → verify_consensus_receipt installed R envelope key (some s) ≡ ok (true, detail)
      → (S : SzlReceipt) × (why : Text) × IsAcceptedBy envelope key S why
        × ((body : Fields) × (signed_body installed R envelope ≡ ok (obj body)) × Binds body s)
  unfolding verify_consensus_receipt
  verify_consensus_receipt-Binds envelope key s detail h =
      let (S, imported, h1) = >>=-eq-ok (require_szl_receipt installed) _ h in
      let ((good, why), answer, h2) = >>=-eq-ok (S.verify_receipt envelope key) _ h1 in
      let (is_good, rest) = gate (good, why) _ detail h2 in
      let (body, decoded, binds) = rebind_cases (signed_body installed R envelope) s detail rest in
      (S, why, (imported, rw (← is_good) answer), (body, decoded, binds))

  -- With an envelope that is accepted together with one receipt, the answer for any other receipt
  -- is fixed: accepted if both digests are the same, refused at the first that differs. The
  -- digests of both receipts are defined.
  pub rebind_decides :
      (envelope : Fields) (key : Value) (s r : Source) (detail i o j q : Text)
      → verify_consensus_receipt installed R envelope key (some s) ≡ ok (true, detail)
      → consensus_input_digest installed s ≡ ok i
      → consensus_output_digest installed s ≡ ok o
      → consensus_input_digest installed r ≡ ok j
      → consensus_output_digest installed r ≡ ok q
      → verify_consensus_receipt installed R envelope key (some r)
        ≡ ok (
            if not (text_eq i j)
            then (false, text "input-digest-rebind-mismatch")
            else if not (text_eq o q)
            then (false, text "output-digest-rebind-mismatch")
            else (true, text "ok"))
  unfolding verify_consensus_receipt
  rebind_decides envelope key s r detail i o j q h hi ho hj hq =
      let (S, why, (there, good), (body, decoded, binds)) =
        verify_consensus_receipt-Binds envelope key s detail h in
      let same_i : binds.input ≡ i = ok-injective (sym binds.input_is ∙ hi) in
      let same_o : binds.output ≡ o = ok-injective (sym binds.output_is ∙ ho) in
      let stated_i : get body (text "input_digest") ≡ str i = rw (← same_i) binds.input_stated in
      let stated_o : get body (text "output_digest") ≡ str o = rw (← same_o) binds.output_stated in
      rw (there, good, decoded) (rebind_stated body r i o j q stated_i stated_o hj hq)
