-- ===== src/Adversary/Battery/Rounds.antt =====
-- The verdicts of a scenario and of a round of fuzzing: that they are made, and whose they are.
use khipu_consensus.Prelude.{
  ℕ, zero, suc, ◌+◌, ◌-◌, ◌%◌, ◌≤◌, ◌≡◌, refl, ◌∙◌, Bool, false, Option, none, some, List, [], ◌∷◌,
  ◌++◌, arith, inl, inr, Bool-cases, Option-cases, All, length, count, one_if, Text,
}
use khipu_consensus.Prelude.Texts.{text_eq}
use khipu_consensus.Prelude.Lists.{swap, get_elem?}
use khipu_consensus.Prelude.Lists.Swap.{All-swap, All-get_elem?, count-swap}
use khipu_consensus.Python.Value.{str, Fields, eq}
use khipu_consensus.Python.Dict.{Dict, values}
use khipu_consensus.Verdict.{from_dict}
use khipu_consensus.Tally.{Item, abstain, verdict, row, other}
use khipu_consensus.Tally.Rows.{HasHash}
use khipu_consensus.Adversary.{duplicate_stuffing}
use khipu_consensus.Adversary.Battery.{Sources, shuffle_from, shuffle, item, stuffing}
use khipu_consensus.Adversary.Battery.Total.{IsBy}

-- An abstention, or the row of a witness whose name is a text.
abbrev pub IsNamed : Item → Type 0
IsNamed abstain = Unit {0}
IsNamed (row d) = (o : Text) × ((from_dict d).organ ≡ str o)
IsNamed (verdict v) = ⊥
IsNamed (other v) = ⊥

-- whether an item is in a witness's name
abbrev pub names : Text → Item → Bool
names k (row d) = eq (from_dict d).organ (str k)
names k (verdict v) = eq v.organ (str k)
names k abstain = false
names k (other v) = false

IsNamed-HasHash : (i : Item) → IsNamed i → HasHash i
IsNamed-HasHash abstain h = tt
IsNamed-HasHash (row d) (o, e) = rw e refl
IsNamed-HasHash (verdict v) h = absurd h
IsNamed-HasHash (other v) h = absurd h

pub All-HasHash : (is : List Item) → All IsNamed is → All HasHash is
All-HasHash [] h = tt
All-HasHash (i ∷ is) (e, h) = (IsNamed-HasHash i e, All-HasHash is h)

abbrev pub IsText : Fields → Type 0
IsText d = (o : Text) × ((from_dict d).organ ≡ str o)

pub IsBy-IsNamed : (o : Text) (v : Option Fields) → IsBy o v → IsNamed (item v)
IsBy-IsNamed o none h = tt
IsBy-IsNamed o (some d) h = (o, h)

pub IsBy-names :
    (o k : Text) (v : Option Fields) → IsBy o v → one_if (names k (item v)) ≤ one_if (text_eq o k)
unfolding eq
IsBy-names o k none h = ground arith
IsBy-names o k (some d) h = rw h (omega arith)

pub append-All {ℓ κ} :
    {A : Type ℓ} (P : A → Type κ) (xs ys : List A) → All P xs → All P ys → All P (xs ++ ys)
append-All P [] ys h k = k
append-All P (x ∷ xs) ys (p, h) k = (p, append-All P xs ys h k)

pub count-append {ℓ} :
    {A : Type ℓ} (f : A → Bool) (xs ys : List A) → count f (xs ++ ys) ≡ count f xs + count f ys
count-append f [] ys = omega arith
count-append f (x ∷ xs) ys = ground (arith, count-append f xs ys)

shuffle_from-All {ℓ κ} :
    {A : Type ℓ} (P : A → Type κ) (draw : ℕ → ℕ) (i : ℕ) (xs : List A)
    → All P xs
    → All P (shuffle_from draw i xs)
unfolding shuffle_from
shuffle_from-All P draw zero xs h = h
shuffle_from-All P draw (suc i) xs h =
    let j = draw (suc i) % suc (suc i) in
    shuffle_from-All P draw i (swap xs (suc i) j) (All-swap P xs (suc i) j h)

count-shuffle_from {ℓ} :
    {A : Type ℓ} (f : A → Bool) (draw : ℕ → ℕ) (i : ℕ) (xs : List A)
    → count f (shuffle_from draw i xs) ≡ count f xs
unfolding shuffle_from
count-shuffle_from f draw zero xs = refl
count-shuffle_from f draw (suc i) xs =
    let j = draw (suc i) % suc (suc i) in
    count-shuffle_from f draw i (swap xs (suc i) j) ∙ count-swap f xs (suc i) j

-- A shuffle keeps what every entry has, and how many entries pass a test.
pub shuffle-All {ℓ κ} :
    {A : Type ℓ} (P : A → Type κ) (draw : ℕ → ℕ) (xs : List A) → All P xs → All P (shuffle draw xs)
unfolding shuffle
shuffle-All P draw xs h = shuffle_from-All P draw (length xs - 1) xs h

pub count-shuffle {ℓ} :
    {A : Type ℓ} (f : A → Bool) (draw : ℕ → ℕ) (xs : List A)
    → count f (shuffle draw xs) ≡ count f xs
unfolding shuffle
count-shuffle f draw xs = count-shuffle_from f draw (length xs - 1) xs

pub duplicates-IsNamed : (d : Fields) (k : ℕ) → IsText d → All IsNamed (duplicate_stuffing d k)
unfolding duplicate_stuffing
duplicates-IsNamed d zero h = tt
duplicates-IsNamed d (suc k) h = (h, duplicates-IsNamed d k h)

pub stuffing-IsNamed :
    (S : Sources) (r : ℕ) (ds : List Fields) → All IsText ds → All IsNamed (stuffing S r ds)
unfolding stuffing
stuffing-IsNamed S r [] h = tt
stuffing-IsNamed S r (d ∷ ds) h = elim (Bool-cases (S.stuffs r)) [
  | inr plain ↦ rw plain tt
  | inl stuffed ↦
      rw stuffed (elim (Option-cases (get_elem? (d ∷ ds) (S.victim r % length (d ∷ ds)))) [
        | inl out ↦ rw out tt
        | inr (victim, found) ↦ rw found (
            duplicates-IsNamed victim (1 + S.copies r % 3)
              (All-get_elem? IsText (d ∷ ds) (S.victim r % length (d ∷ ds)) victim h found))
      ])
]

pub values-All : (used : Dict Fields) → All (λ (k, d). IsText d) used → All IsText (values used)
values-All [] h = tt
values-All ((k, d) ∷ used) (p, h) = (p, values-All used h)
