-- ===== src/Scan/Ripgrep/Reports/Loop.antt =====
-- The loop over the records of one report of ripgrep.
use khipu_consensus.Prelude.{
  ℕ, ◌≡◌, ◌⊎◌, refl, sym, ap, ◌∙◌, none, some, List, [], ◌∷◌, ◌++◌, inl, inr, bind, Bytes, text,
  append-nil, append_assoc,
}
use khipu_consensus.Prelude.Tests.{some_inj, none-ne-some, Bool-cases, bind-eq-some}
use khipu_consensus.Prelude.Texts.{text_eq}
use khipu_consensus.Python.Value.{Fields, find}
use khipu_consensus.Scan.Ripgrep.{
  Ripgrep, Match, fields_of, match_record, summary_record, is_frame, kind_is, Batch, batch_record,
  batch_records,
}
use khipu_consensus.Scan.Ripgrep.Reports.{IsEvent, IsReported, IsSummary, Reads}
use khipu_consensus.Scan.Ripgrep.Reports.Records.{
  kind_is-str, is_frame-str, fields_of-obj, match_record-IsReported, IsReported-match_record,
  summary_record-IsSummary, IsSummary-summary_record,
}

-- What one record does to the variables of the loop.
batch_record-cases :
    (tool : Ripgrep) (arguments : List Bytes) (acc : List Match) (l : Bytes) (ls : List Bytes)
    (out : Batch)
    → batch_records tool arguments (acc, none) (l ∷ ls) ≡ some out
    → (fields : Fields) × (((IsEvent tool l (text "begin") fields
            ⊎ IsEvent tool l (text "end") fields)
          × (batch_records tool arguments (acc, none) ls ≡ some out))
        ⊎ (((m : Match) × IsEvent tool l (text "match") fields
              × IsReported tool arguments fields m
              × (batch_records tool arguments (acc ++ (m ∷ []), none) ls ≡ some out))
            ⊎ ((n : ℕ) × IsEvent tool l (text "summary") fields
                × IsSummary fields n
                × (batch_records tool arguments (acc, some n) ls ≡ some out))))
unfolding batch_record batch_records IsEvent
batch_record-cases tool arguments acc l ls out h =
    let (event, e1, h1) = bind-eq-some (bind (tool.loads l) fields_of) _ h in
    let (v, loaded, is_obj) = bind-eq-some (tool.loads l) fields_of e1 in
    let (after, e2, h2) = bind-eq-some (batch_record tool arguments (acc, none) event) _ h1 in
    let (kind, e3, h3) = bind-eq-some (find (text "type") event) _ e2 in
    let (fields, e4, h4) = bind-eq-some (bind (find (text "data") event) fields_of) _ h3 in
    let (w, there, is_fields) = bind-eq-some (find (text "data") event) fields_of e4 in
    let loads = loaded ∙ ap some (fields_of-obj v event is_obj) in
    let holds = there ∙ ap some (fields_of-obj w fields is_fields) in
    elim (Bool-cases (kind_is (text "match") kind)) [
      | inl is_match ↦
          let (m, e5, h5) =
            bind-eq-some (match_record tool arguments fields) _ (rw is_match at h4) in
          (
            fields,
            inr (
                inl (
                  m,
                  (event, loads, e3 ∙ ap some (kind_is-str (text "match") kind is_match), holds),
                  match_record-IsReported tool arguments fields m e5,
                  rw (← some_inj h5) at h2,
                )),
          )
      | inr other ↦ elim (Bool-cases (kind_is (text "summary") kind)) [
        | inl is_summary ↦
            let (n, e5, h5) =
              bind-eq-some (summary_record fields) _ (rw (other, is_summary) at h4) in
            (
              fields,
              inr (
                  inr (
                    n,
                    (
                      event,
                      loads,
                      e3 ∙ ap some (kind_is-str (text "summary") kind is_summary),
                      holds,
                    ),
                    summary_record-IsSummary fields n e5,
                    rw (← some_inj h5) at h2,
                  )),
            )
        | inr no_summary ↦ elim (Bool-cases (is_frame kind)) [
          | inr unknown ↦ none-ne-some (rw (other, no_summary, unknown) at h4)
          | inl framed ↦ elim (is_frame-str kind framed) [
            | inl begins ↦ (
              fields,
              inl (
                inl (event, loads, e3 ∙ ap some begins, holds),
                rw (← some_inj (rw (other, no_summary, framed) at h4)) at h2,
              ),
            )
            | inr ends ↦ (
              fields,
              inl (
                inr (event, loads, e3 ∙ ap some ends, holds),
                rw (← some_inj (rw (other, no_summary, framed) at h4)) at h2,
              ),
            )
          ]
        ]
      ]
    ]

-- After the summary no record may follow.
after_summary :
    (tool : Ripgrep) (arguments : List Bytes) (acc : List Match) (n : ℕ) (ls : List Bytes)
    (out : Batch)
    → batch_records tool arguments (acc, some n) ls ≡ some out
    → (ls ≡ []) × (out ≡ (acc, some n))
unfolding batch_records batch_record
after_summary tool arguments acc n [] out h = (refl, sym (some_inj h))
after_summary tool arguments acc n (l ∷ ls) out h =
    let (event, e1, h1) = bind-eq-some (bind (tool.loads l) fields_of) _ h in none-ne-some h1

-- The records of a batch up to its end, given the matches so far.
pub batch_records-Reads :
    (tool : Ripgrep) (arguments : List Bytes) (acc : List Match) (ls : List Bytes) (ms : List Match)
    (n : ℕ)
    → batch_records tool arguments (acc, none) ls ≡ some (ms, some n)
    → (rest : List Match) × (ms ≡ acc ++ rest) × Reads tool arguments ls rest n
unfolding batch_records
batch_records-Reads tool arguments acc [] ms n h =
    none-ne-some (ap (λ (b : Batch). b.1) (some_inj h))
batch_records-Reads tool arguments acc (l ∷ ls) ms n h =
    let (fields, step) = batch_record-cases tool arguments acc l ls (ms, some n) h in
    elim step [
      | inl (is_frame_event, h1) ↦
          let (rest, e, reads) = batch_records-Reads tool arguments acc ls ms n h1 in
          (rest, e, Reads.frame fields is_frame_event reads)
      | inr (inl (m, is_event, is_reported, h1)) ↦
          let (rest, e, reads) = batch_records-Reads tool arguments (acc ++ (m ∷ [])) ls ms n h1 in
          (
            m ∷ rest,
            e ∙ append_assoc acc (m ∷ []) rest,
            Reads.matched fields is_event is_reported reads,
          )
      | inr (inr (k, is_event, is_summary, h1)) ↦
          let (ended, last) = after_summary tool arguments acc k ls (ms, some n) h1 in
          (
            [],
            ap (λ (b : Batch). b.0) last ∙ sym (append-nil acc),
            rw (ended, some_inj (ap (λ (b : Batch). b.1) last))
                (Reads.summed fields is_event is_summary),
          )
    ]

pub Reads-batch_records :
    (tool : Ripgrep) (arguments : List Bytes) (acc : List Match) (ls : List Bytes) (ms : List Match)
    (n : ℕ)
    → Reads tool arguments ls ms n
    → batch_records tool arguments (acc, none) ls ≡ some (acc ++ ms, some n)
unfolding batch_records batch_record IsEvent text_eq
Reads-batch_records tool arguments acc [] ms n h = elim h [ ]
Reads-batch_records tool arguments acc (l ∷ ls) ms n
      (Reads.frame fields (inl (event, loads, type_is, holds)) reads) =
    rw (batch_records, loads, batch_record, type_is, holds)
      (Reads-batch_records tool arguments acc ls ms n reads)
Reads-batch_records tool arguments acc (l ∷ ls) ms n
      (Reads.frame fields (inr (event, loads, type_is, holds)) reads) =
    rw (batch_records, loads, batch_record, type_is, holds)
      (Reads-batch_records tool arguments acc ls ms n reads)
Reads-batch_records tool arguments acc (l ∷ ls) (m ∷ ms) n
      (Reads.matched fields (event, loads, type_is, holds) is_reported reads) =
    rw
      (
        batch_records,
        loads,
        batch_record,
        type_is,
        holds,
        IsReported-match_record tool arguments fields m is_reported,
        ← append_assoc acc (m ∷ []) ms,
      )
      (Reads-batch_records tool arguments (acc ++ (m ∷ [])) ls ms n reads)
Reads-batch_records tool arguments acc (l ∷ []) [] n
      (Reads.summed fields (event, loads, type_is, holds) is_summary) =
    rw
      (
        batch_records,
        loads,
        batch_record,
        type_is,
        holds,
        IsSummary-summary_record fields n is_summary,
        append-nil acc,
      )
      refl
