-- ===== src/Scan/Judge/Stands/Lined.antt =====
-- The judgement of a line of a file.
use khipu_consensus.Prelude.{
  ℕ, suc, ◌-◌, ◌≡◌, ◌↔◌, refl, sym, ◌∙◌, Bool, true, Option, none, some, [], ◌∷◌, inl, inr, length,
  if◌then◌else◌, Bytes,
}
use khipu_consensus.Prelude.Tests.{none-ne-some, Bool-cases, Option-cases}
use khipu_consensus.Prelude.Lists.{get_elem?}
use khipu_consensus.Prelude.Texts.{text_eq, text_eq→≡, text_eq_refl}
use khipu_consensus.Scan.Marks.{slice, find_in, hosts_in}
use khipu_consensus.Scan.Source.{Source}
use khipu_consensus.Scan.Judge.{
  line_starts, line_ends, without_return, judge_hosts, judge_line, judge,
}
use khipu_consensus.Scan.Judge.Lines.{IsLineFrom}
use khipu_consensus.Scan.Judge.Lines.Starts.{line_starts-IsLineStart}
use khipu_consensus.Scan.Judge.Lines.Ends.{
  find_in-break, find_in-none, line_ends_last, line_ends_break,
}
use khipu_consensus.Scan.Judge.Stands.{HostsCovered, Stands}
use khipu_consensus.Scan.Judge.Stands.Hosts.{judge_hosts-HostsCovered}

-- The judgement of a line, given where it ends with its line break and without.
judged : Source → (line : Bytes) → (start after content_end : ℕ) → Option Bool
judged source line start after content_end =
    let line_end = without_return source.bytes start content_end in
    if text_eq (slice source.bytes start after) line
    then judge_hosts source start line_end (hosts_in source.bytes start line_end)
    else none

judged_covers :
    (source : Source) (line : Bytes) (start after content_end : ℕ)
    → judged source line start after content_end ≡ some true
    → (line ≡ slice source.bytes start after)
      × HostsCovered source start (without_return source.bytes start content_end)
unfolding judged
judged_covers source line start after content_end h =
    elim (Bool-cases (text_eq (slice source.bytes start after) line)) [
      | inr changed ↦ none-ne-some (rw (judged, changed) at h)
      | inl same ↦ (
        sym (text_eq→≡ (slice source.bytes start after) line same),
        (judge_hosts-HostsCovered source start (without_return source.bytes start content_end)).0
            (rw (judged, same) at h),
      )
    ]

judged_holds :
    (source : Source) (line : Bytes) (start after content_end : ℕ)
    → line ≡ slice source.bytes start after
    → HostsCovered source start (without_return source.bytes start content_end)
    → judged source line start after content_end ≡ some true
unfolding judged
judged_holds source line start after content_end same covers =
    rw (same, text_eq_refl (slice source.bytes start after))
      ((judge_hosts-HostsCovered source start (without_return source.bytes start content_end)).1
        covers)

judge_line-judged :
    (source : Source) (line : Bytes) (start : ℕ) (bounds : ℕ × ℕ)
    → line_ends source.bytes start ≡ bounds
    → judge_line source line start ≡ judged source line start (bounds.0) (bounds.1)
unfolding judged
judge_line-judged source line start bounds e = rw (← e) refl

-- A line that is found by its line break, or reaches to the end of the file.
judge_line_covers :
    (source : Source) (line : Bytes) (start : ℕ)
    → judge_line source line start ≡ some true
    → (content_end : ℕ) × IsLineFrom source.bytes start content_end line
      × HostsCovered source start (without_return source.bytes start content_end)
unfolding IsLineFrom
judge_line_covers source line start h =
    let size = length source.bytes in
    elim (Option-cases (find_in (10 ∷ []) source.bytes start size)) [
      | inl nowhere ↦
          let (same, covers) = judged_covers source line start size size (
            sym (judge_line-judged source line start (size, size) (rw (line_ends, nowhere) refl))
            ∙ h) in
          (size, (find_in-none source.bytes start nowhere, inl (refl, same)), covers)
      | inr (k, there) ↦
          let (low, newline, clear) = find_in-break source.bytes start k there in
          let (same, covers) = judged_covers source line start (suc k) k (
            sym (judge_line-judged source line start (suc k, k) (rw (line_ends, there) refl))
            ∙ h) in
          (k, (clear, inr (low, newline, same)), covers)
    ]

judge_line_holds :
    (source : Source) (line : Bytes) (start content_end : ℕ)
    → IsLineFrom source.bytes start content_end line
    → HostsCovered source start (without_return source.bytes start content_end)
    → judge_line source line start ≡ some true
unfolding IsLineFrom
judge_line_holds source line start content_end (clear, inl (last, same)) covers =
    let size = length source.bytes in
    let ends = line_ends_last source.bytes start content_end clear last in
    judge_line-judged source line start (size, size) ends
    ∙ judged_holds source line start size size (rw (← last) same) (rw (← last) covers)
judge_line_holds source line start content_end (clear, inr (low, newline, same)) covers =
    judge_line-judged source line start (suc content_end, content_end)
      (line_ends_break source.bytes start content_end clear low newline)
    ∙ judged_holds source line start (suc content_end) content_end same covers

judge_covers :
    (source : Source) (number : ℕ) (line : Bytes)
    → judge source number line ≡ some true
    → Stands source number line
unfolding judge Stands
judge_covers source number line h =
    elim (Option-cases (get_elem? (line_starts source.bytes) (number - 1))) [
      | inl missing ↦ none-ne-some (rw (judge, missing) at h)
      | inr (start, there) ↦
          let (content_end, holds, covers) =
            judge_line_covers source line start (rw (judge, there) at h) in
          (
            start,
            content_end,
            (line_starts-IsLineStart source.bytes number start).0 there,
            holds,
            covers,
          )
    ]

pub judge-Stands :
    (source : Source) (number : ℕ) (line : Bytes)
    → (judge source number line ≡ some true) ↔ Stands source number line
unfolding judge Stands
judge-Stands source number line = (
  judge_covers source number line,
  λ (start, content_end, begins, holds, covers).
      rw (judge, (line_starts-IsLineStart source.bytes number start).1 begins)
        (judge_line_holds source line start content_end holds covers),
)
