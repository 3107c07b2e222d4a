-- ===== src/Policy/Entries.antt =====
-- What the list of signatures holds once `_validate_signature_entries` has accepted it.
use khipu_consensus.Prelude.{
  ℕ, ◌≤◌, ◌+◌, ◌≡◌, refl, ◌↔◌, true, false, Option, none, some, List, [], ◌∷◌, arith, inl, inr,
  Bool-cases, All, length, ltb, Text, text, map,
}
use khipu_consensus.Python.Value.{
  Value, null, bool, int, float, str, arr, obj, Items, items, Fields, find, get, hashable, or_else,
  is_str, hashable-is_str,
}
use khipu_consensus.Python.Dict.{Dict, has_key, member}
use khipu_consensus.Python.Host.{Host}
use khipu_consensus.Verdict.{from_dict}
use khipu_consensus.Tally.Rows.{HasHash}
use khipu_consensus.Verify.{entry_item}
use khipu_consensus.Policy.{
  named, required_strings, optional_strings, bad_optional, check_required, check_optional,
  check_entry, check_entries, first_of_two, verdict_on, validate_signature_entries,
}

-- A dict with all the fields of a signed verdict, by a trusted witness.
pub record IsSignature (trusted : Dict Value) (item : Fields) : Type 0 where
  pub required : All (λ name. named (get item name) ≡ true) required_strings
  pub optional : All (λ name. bad_optional (find name item) ≡ false) optional_strings
  pub known : has_key (get item (text "organ")) trusted ≡ true

-- Abstentions and signatures, by witnesses that are not among those seen and do not repeat.
abbrev pub AreSignatures : Dict Value → List Value → List Value → Type 0
AreSignatures trusted seen [] = Unit
AreSignatures trusted seen (null ∷ vs) = AreSignatures trusted seen vs
AreSignatures trusted seen (obj item ∷ vs) =
    IsSignature trusted item
    × (member (get item (text "organ")) seen ≡ false)
    × AreSignatures trusted (get item (text "organ") ∷ seen) vs
AreSignatures trusted seen (_ ∷ vs) = ⊥

check_required_iff :
    (index : ℕ) (item : Fields) (names : List Text)
    → (check_required index item names ≡ none) ↔ All (λ name. named (get item name) ≡ true) names
unfolding check_required
check_required_iff index item [] = (λ h. tt, λ h. refl)
check_required_iff index item (name ∷ names) =
    let (to, from) = check_required_iff index item names in
    (λ h. (ground arith, to (ground arith)), λ (a, b). let e = from b in ground arith)

check_optional_iff :
    (index : ℕ) (item : Fields) (names : List Text)
    → (check_optional index item names ≡ none)
      ↔ All (λ name. bad_optional (find name item) ≡ false) names
unfolding check_optional
check_optional_iff index item [] = (λ h. tt, λ h. refl)
check_optional_iff index item (name ∷ names) =
    let (to, from) = check_optional_iff index item names in
    (λ h. (ground arith, to (ground arith)), λ (a, b). let e = from b in ground arith)

first_of_two-none : (a b : Option Text) → (first_of_two a b ≡ none) ↔ ((a ≡ none) × (b ≡ none))
first_of_two-none none b = (λ h. (refl, h), λ (_, h). h)
first_of_two-none (some a) b = (λ h. absurd cc, λ (h, _). absurd cc)

too_many : (a b : ℕ) → ltb a b ≡ true → b ≤ a → ⊥
too_many a b h le = ground arith

module _ (H : Host) (trusted : Dict Value) where
  check_entry_iff :
      (index : ℕ) (seen : List Value) (item : Fields)
      → (check_entry H trusted index seen item ≡ none)
        ↔ (IsSignature trusted item × (member (get item (text "organ")) seen ≡ false))
  unfolding check_entry
  check_entry_iff index seen item =
      let req = check_required_iff index item required_strings in
      let opt = check_optional_iff index item optional_strings in
      (
        λ h.
            let (a, bc) = (first_of_two-none _ _).0 h in
            let (b, c) = (first_of_two-none _ _).0 bc in
            (record { required = req.0 a; optional = opt.0 b; known = ground arith }, ground arith),
        λ (s, fresh).
            let c = s.known in
            (first_of_two-none _ _).1
              (req.1 s.required, (first_of_two-none _ _).1 (opt.1 s.optional, rw (c, fresh) refl)),
      )

  check_entries_iff :
      (index : ℕ) (seen vs : List Value)
      → (check_entries H trusted index seen vs ≡ none) ↔ AreSignatures trusted seen vs
  unfolding check_entries
  check_entries_iff index seen [] = (λ h. tt, λ h. refl)
  check_entries_iff index seen (null ∷ vs) = check_entries_iff (index + 1) seen vs
  check_entries_iff index seen (obj item ∷ vs) =
      let entry = check_entry_iff index seen item in
      let rest = check_entries_iff (index + 1) (get item (text "organ") ∷ seen) vs in
      (
        λ h.
            let (a, b) = (first_of_two-none _ _).0 h in
            let (s, fresh) = entry.0 a in (s, fresh, rest.0 b),
        λ (s, fresh, r). (first_of_two-none _ _).1 (entry.1 (s, fresh), rest.1 r),
      )
  check_entries_iff index seen (bool b ∷ vs) = (λ h. absurd cc, λ h. absurd h)
  check_entries_iff index seen (int z ∷ vs) = (λ h. absurd cc, λ h. absurd h)
  check_entries_iff index seen (float m k ∷ vs) = (λ h. absurd cc, λ h. absurd h)
  check_entries_iff index seen (str s ∷ vs) = (λ h. absurd cc, λ h. absurd h)
  check_entries_iff index seen (arr xs ∷ vs) = (λ h. absurd cc, λ h. absurd h)

  verdict_on-true : (o : Option Text) → ((verdict_on H trusted o).0 ≡ true) ↔ (o ≡ none)
  verdict_on-true none = (λ h. refl, λ h. refl)
  verdict_on-true (some w) = (λ h. absurd cc, λ h. absurd cc)

  -- A list of signatures is accepted exactly if it has at most as many entries as there are
  -- trusted witnesses, and each entry is an abstention or a complete signature of a trusted
  -- witness that no earlier entry names.
  pub validate_iff :
      (vs : Items) (n : ℕ)
      → ((validate_signature_entries H trusted (arr vs) n).0 ≡ true)
        ↔ ((length (items vs) ≤ n) × AreSignatures trusted [] (items vs))
  unfolding validate_signature_entries
  validate_iff vs n =
      let all_entries = check_entries_iff 0 [] (items vs) in
      let good = verdict_on-true (check_entries H trusted 0 [] (items vs)) in
      elim (Bool-cases (ltb n (length (items vs)))) [
        | inl over ↦
            rw over (λ h. absurd cc, λ (le, _). absurd (too_many n (length (items vs)) over le))
        | inr under ↦
            rw under
              (λ h. (ground arith, all_entries.0 (good.0 h)), λ (_, h). good.1 (all_entries.1 h))
      ]

or_else-hashable :
    (o : Option Value) (s : Text)
    → is_str (or_else o null) ≡ true
    → hashable (or_else o (str s)) ≡ true
or_else-hashable none s h = refl
or_else-hashable (some v) s h = hashable-is_str v h

named-is_str : (v : Value) → named v ≡ true → is_str v ≡ true
named-is_str v h = ground arith

-- Accepted entries make items that the tally can look up.
pub AreSignatures-HasHash :
    (trusted : Dict Value) (seen vs : List Value)
    → AreSignatures trusted seen vs
    → All HasHash (map entry_item vs)
unfolding from_dict
AreSignatures-HasHash trusted seen [] h = tt
AreSignatures-HasHash trusted seen (null ∷ vs) h = (tt, AreSignatures-HasHash trusted seen vs h)
AreSignatures-HasHash trusted seen (obj item ∷ vs) (s, fresh, h) = (
  or_else-hashable (find (text "organ") item) (text "")
      (named-is_str (get item (text "organ")) s.required.0),
  AreSignatures-HasHash trusted (get item (text "organ") ∷ seen) vs h,
)
AreSignatures-HasHash trusted seen (bool b ∷ vs) h = absurd h
AreSignatures-HasHash trusted seen (int z ∷ vs) h = absurd h
AreSignatures-HasHash trusted seen (float m k ∷ vs) h = absurd h
AreSignatures-HasHash trusted seen (str t ∷ vs) h = absurd h
AreSignatures-HasHash trusted seen (arr xs ∷ vs) h = absurd h
