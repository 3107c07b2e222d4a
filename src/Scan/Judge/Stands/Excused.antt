-- ===== src/Scan/Judge/Stands/Excused.antt =====
-- The segment that covers a host.
use khipu_consensus.Prelude.{
  ℕ, ◌+◌, ◌≤◌, ◌≡◌, refl, sym, ◌∙◌, Bool, true, false, ◌||◌, none, some, inl, inr, arith, ltb, ◌⊎◌,
}
use khipu_consensus.Prelude.Tests.{Bool-cases, Option-cases}
use khipu_consensus.Scan.Lexer.{Kind, Segment, code, literal, comment, prose, html_text}
use khipu_consensus.Scan.Source.{Source, segment_at}
use khipu_consensus.Scan.Judge.{covered_in, covered}
use khipu_consensus.Scan.Judge.Stands.{Excuses, IsExcused}

false-ne-true : {A : Type 0} → Path Bool false true → A
false-ne-true e = cc

or_cases : (a b : Bool) → a || b ≡ true → (a ≡ true) ⊎ (b ≡ true)
or_cases true b h = inl refl
or_cases false b h = inr h

or_second : (a b : Bool) → b ≡ true → a || b ≡ true
or_second true b h = refl
or_second false b h = h

kind_Excuses :
    (source : Source) (start low high : ℕ) (s : Segment) (k : Kind)
    → s.kind ≡ k
    → ltb s.end (start + 9) ≡ false
    → covered_in source start (start + 9) low high s ≡ true
    → Excuses source start low high s
kind_Excuses source start low high s code e fits h =
    Excuses.in_code e (rw (covered_in, fits, e) at h)
kind_Excuses source start low high s literal e fits h =
    elim (or_cases _ _ (rw (covered_in, fits, e) at h)) [
      | inl structured ↦ Excuses.literal_structure e structured
      | inr worded ↦ Excuses.literal_words e worded
    ]
kind_Excuses source start low high s comment e fits h =
    Excuses.comment_words e (rw (covered_in, fits, e) at h)
kind_Excuses source start low high s prose e fits h =
    elim (or_cases _ _ (rw (covered_in, fits, e) at h)) [
      | inl structured ↦ Excuses.prose_line e structured
      | inr worded ↦ Excuses.prose_words e worded
    ]
kind_Excuses source start low high s html_text e fits h =
    Excuses.page_text e (rw (covered_in, fits, e) at h)

Excuses-covered_in :
    (source : Source) (start low high : ℕ) (s : Segment)
    → ltb s.end (start + 9) ≡ false
    → Excuses source start low high s
    → covered_in source start (start + 9) low high s ≡ true
Excuses-covered_in source start low high s fits (Excuses.in_code e h) = rw (covered_in, fits, e) h
Excuses-covered_in source start low high s fits (Excuses.literal_structure e h) =
    rw (covered_in, fits, e, h) refl
Excuses-covered_in source start low high s fits (Excuses.literal_words e h) =
    rw (covered_in, fits, e) (or_second _ _ h)
Excuses-covered_in source start low high s fits (Excuses.comment_words e h) =
    rw (covered_in, fits, e) h
Excuses-covered_in source start low high s fits (Excuses.prose_line e h) =
    rw (covered_in, fits, e, h) refl
Excuses-covered_in source start low high s fits (Excuses.prose_words e h) =
    rw (covered_in, fits, e) (or_second _ _ h)
Excuses-covered_in source start low high s fits (Excuses.page_text e h) = rw (covered_in, fits, e) h

short_segment :
    (source : Source) (start low high : ℕ) (s : Segment)
    → ltb s.end (start + 9) ≡ true
    → covered_in source start (start + 9) low high s ≡ false
short_segment source start low high s short = rw (covered_in, short) refl

covered-segment :
    (source : Source) (start low high : ℕ) (s : Segment)
    → segment_at source start ≡ some s
    → covered source start low high ≡ covered_in source start (start + 9) low high s
unfolding covered
covered-segment source start low high s there = rw (covered, there) refl

covered-nowhere :
    (source : Source) (start low high : ℕ)
    → segment_at source start ≡ none
    → covered source start low high ≡ false
unfolding covered
covered-nowhere source start low high nowhere = rw (covered, nowhere) refl

pub covered-IsExcused :
    (source : Source) (start low high : ℕ)
    → covered source start low high ≡ true
    → IsExcused source start low high
unfolding IsExcused
covered-IsExcused source start low high h = elim (Option-cases (segment_at source start)) [
  | inl nowhere ↦ false-ne-true (sym (covered-nowhere source start low high nowhere) ∙ h)
  | inr (s, there) ↦
      let inside = sym (covered-segment source start low high s there) ∙ h in
      elim (Bool-cases (ltb s.end (start + 9))) [
        | inl short ↦ false-ne-true (sym (short_segment source start low high s short) ∙ inside)
        | inr fits ↦
            (s, there, ground arith, kind_Excuses source start low high s s.kind refl fits inside)
      ]
]

fits_ltb : (a b : ℕ) → a ≤ b → ltb b a ≡ false
fits_ltb a b h = ground arith

pub IsExcused-covered :
    (source : Source) (start low high : ℕ)
    → IsExcused source start low high
    → covered source start low high ≡ true
unfolding IsExcused
IsExcused-covered source start low high (s, there, fits, excuse) =
    covered-segment source start low high s there
    ∙ Excuses-covered_in source start low high s (fits_ltb (start + 9) s.end fits) excuse
