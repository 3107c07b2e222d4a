-- ===== src/Scan/Judge/Lines.antt =====
-- The lines of a file that the forbidden-domain gate reads again.
use khipu_consensus.Prelude.{
  ℕ, suc, ◌-◌, ◌≤◌, ◌<◌, ◌≡◌, ◌≢◌, ◌⊎◌, some, [], ◌∷◌, length, ◌==◌, if◌then◌else◌, Bytes,
}
use khipu_consensus.Prelude.Lists.{get_elem?}
use khipu_consensus.Scan.Marks.{take, slice}
pub mod Starts
pub mod Ends

-- the number of line breaks
abbrev pub breaks : Bytes → ℕ
breaks [] = 0
breaks (b ∷ bs) = (let rest = breaks bs in if b == 10 then suc rest else rest)

-- The line of a number starts at an index: at the start of the file or after a line break, with as
-- many line breaks before it as there are lines.
pub IsLineStart : Bytes → (number start : ℕ) → Type 0
IsLineStart src number start =
    ((start ≡ 0) ⊎ ((j : ℕ) × (start ≡ suc j) × (get_elem? src j ≡ some 10)))
    × (breaks (take src start) ≡ number - 1)

-- A line from an index: its content holds no line break; the file ends there, or a line break
-- stands there, which belongs to the line.
unfoldable pub IsLineFrom : Bytes → (start content_end : ℕ) → (line : Bytes) → Type 0
IsLineFrom src start content_end line =
    ((i : ℕ) → start ≤ i → i < content_end → get_elem? src i ≢ some 10)
    × (((content_end ≡ length src) × (line ≡ slice src start content_end))
        ⊎ ((start ≤ content_end)
            × (get_elem? src content_end ≡ some 10)
            × (line ≡ slice src start (suc content_end))))
