-- ===== src/Scan/Ripgrep/Reports/Collected.antt =====
-- The matches that are collected from the reports of ripgrep.
use mathlib.Core.Path.{subst}
use khipu_consensus.Prelude.{
  ℕ, zero, suc, ◌≡◌, ◌≢◌, ◌⊎◌, refl, sym, ap, Bool, true, ◌&&◌, Option, none, some, List, [], ◌∷◌,
  ◌++◌, inl, inr, arith, length, map, ◌==◌, ℤ, pos, negsuc, Bytes, text,
}
use khipu_consensus.Prelude.Tests.{some_inj, none-ne-some, Bool-cases, bind-eq-some}
use khipu_consensus.Scan.Ripgrep.{
  Ripgrep, Match, batch_records, splitlines, complete, batch_matches, accepted, collect,
  collect_all, is_zero, some_match, same,
}
use khipu_consensus.Scan.Ripgrep.Reports.{Reads, IsReport, AreReports}
use khipu_consensus.Scan.Ripgrep.Reports.Loop.{batch_records-Reads, Reads-batch_records}

-- The return code and the matches that go with it.
Coded : ℤ → List Match → Type 0
Coded returncode ms = ((returncode ≡ pos 0) × (ms ≢ [])) ⊎ ((returncode ≡ pos 1) × (ms ≡ []))

complete-parts :
    (clean_exit : Bool) (ms : List Match) (o : Option ℕ) (out : List Match)
    → complete clean_exit (ms, o) ≡ some out
    → (o ≡ some (length ms)) × (same clean_exit (some_match ms) ≡ true) × (ms ≡ out)
unfolding complete
complete-parts clean_exit ms none out h = none-ne-some h
complete-parts clean_exit ms (some n) out h =
    elim (Bool-cases (n == length ms && same clean_exit (some_match ms))) [
      | inr bad ↦ none-ne-some (rw bad at h)
      | inl good ↦
          let equal : n ≡ length ms = ground arith in
          (ap some equal, ground arith, some_inj (rw good at h))
    ]

accepted-Coded :
    (returncode : ℤ) (ms : List Match)
    → accepted returncode ≡ true
    → same (is_zero returncode) (some_match ms) ≡ true
    → Coded returncode ms
unfolding Coded
accepted-Coded (pos zero) (m ∷ ms) h c = inl (refl, λ e. cc)
accepted-Coded (pos (suc zero)) [] h c = inr (refl, refl)
accepted-Coded (pos zero) [] h c = cc
accepted-Coded (pos (suc zero)) (m ∷ ms) h c = cc
accepted-Coded (pos (suc (suc n))) ms h c = ground arith
accepted-Coded (negsuc n) ms h c = cc

counted-Reads :
    (tool : Ripgrep) (arguments ls : List Bytes) (found : List Match) (summary : Option ℕ)
    → batch_records tool arguments ([], none) ls ≡ some (found, summary)
    → summary ≡ some (length found)
    → Reads tool arguments ls found (length found)
counted-Reads tool arguments ls found summary h counted =
    let (rest, e, reads) =
      batch_records-Reads tool arguments [] ls found (length found) (rw counted at h) in
    subst (λ ms. Reads tool arguments ls ms (length found)) (sym e) reads

collect-IsReport :
    (tool : Ripgrep) (batch : List Bytes) (ms : List Match)
    → collect tool batch ≡ some ms
    → IsReport tool batch ms
unfolding collect batch_matches IsReport Coded
collect-IsReport tool batch ms h =
    let arguments = map (λ value. text "./" ++ value) batch in
    let (result, ran, h1) = bind-eq-some (tool.scan arguments) _ h in
    let (returncode, output) = result in
    elim (Bool-cases (accepted returncode)) [
      | inr bad ↦ none-ne-some (rw bad at h1)
      | inl good ↦
          let ((found, summary), e2, h2) =
            bind-eq-some (batch_records tool arguments ([], none) (splitlines output)) _
              (rw good at h1) in
          let (counted, coded, same_list) =
            complete-parts (is_zero returncode) found summary ms h2 in
          rw (← same_list) (
            returncode,
            output,
            ran,
            counted-Reads tool arguments (splitlines output) found summary e2 counted,
            accepted-Coded returncode found good coded,
          )
    ]

equal_true : (n : ℕ) → n == n ≡ true
equal_true n = ground arith

Coded-accepted :
    (returncode : ℤ) (ms : List Match)
    → Coded returncode ms
    → (accepted returncode ≡ true) × (same (is_zero returncode) (some_match ms) ≡ true)
unfolding Coded
Coded-accepted returncode (m ∷ ms) (inl (e, some_found)) = (rw e refl, rw e refl)
Coded-accepted returncode [] (inl (e, some_found)) = absurd (some_found refl)
Coded-accepted returncode ms (inr (e, nothing)) = (rw e refl, rw (e, nothing) refl)

IsReport-collect :
    (tool : Ripgrep) (batch : List Bytes) (ms : List Match)
    → IsReport tool batch ms
    → collect tool batch ≡ some ms
unfolding collect batch_matches complete IsReport Coded
IsReport-collect tool batch ms (returncode, output, ran, reads, coded) =
    let arguments = map (λ value. text "./" ++ value) batch in
    let (accepts, agrees) = Coded-accepted returncode ms coded in
    rw
      (
        collect,
        ran,
        accepts,
        batch_matches,
        Reads-batch_records tool arguments [] (splitlines output) ms (length ms) reads,
      )
      (rw (complete, equal_true (length ms), agrees) refl)

pub collect_all-AreReports :
    (tool : Ripgrep) (bs : List (List Bytes)) (ms : List Match)
    → collect_all tool bs ≡ some ms
    → AreReports tool bs ms
unfolding collect_all AreReports
collect_all-AreReports tool [] ms h = sym (some_inj h)
collect_all-AreReports tool (b ∷ bs) ms h =
    let (here, e1, h1) = bind-eq-some (collect tool b) _ h in
    let (rest, e2, h2) = bind-eq-some (collect_all tool bs) _ h1 in
    (
      here,
      rest,
      sym (some_inj h2),
      collect-IsReport tool b here e1,
      collect_all-AreReports tool bs rest e2,
    )

pub AreReports-collect_all :
    (tool : Ripgrep) (bs : List (List Bytes)) (ms : List Match)
    → AreReports tool bs ms
    → collect_all tool bs ≡ some ms
unfolding collect_all AreReports
AreReports-collect_all tool [] ms h = rw h refl
AreReports-collect_all tool (b ∷ bs) ms (here, rest, e, report, reports) =
    rw
      (
        collect_all,
        IsReport-collect tool b here report,
        AreReports-collect_all tool bs rest reports,
        e,
      )
      refl
