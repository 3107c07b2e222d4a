-- ===== src/Scan/Judge/Stands/Hosts.antt =====
-- The prohibited hosts of a part of a file, and their judgement.
use khipu_consensus.Prelude.{
  ℕ, zero, suc, ◌+◌, ◌-◌, ◌≤◌, ◌<◌, ◌≡◌, ◌≢◌, ◌↔◌, refl, ap, Bool, true, false, ◌&&◌, some, List,
  [], ◌∷◌, inl, inr, arith, all, leb, ◌==◌, Bytes,
}
use khipu_consensus.Prelude.Tests.{some_inj, none-ne-some, Bool-cases}
use khipu_consensus.Scan.Marks.{host_at, hosts_by, hosts_in}
use khipu_consensus.Scan.Source.{Source}
use khipu_consensus.Scan.Judge.{covered, judge_hosts}
use khipu_consensus.Scan.Judge.Stands.Excused.{covered-IsExcused, IsExcused-covered}
use khipu_consensus.Scan.Judge.Stands.{IsHostIn, HostsCovered}

same_index : (i j : ℕ) → i == j ≡ true → i ≡ j
same_index i j h = ground arith

and_first : (a b : Bool) → a && b ≡ true → a ≡ true
and_first a b h = ground arith

and_rest : (a b : Bool) → a && b ≡ true → b ≡ true
and_rest a b h = ground arith

first_item : {i j : ℕ} {is js : List ℕ} → Path (List ℕ) (i ∷ is) (j ∷ js) → i ≡ j
first_item e = cc

cons_apart : {i : ℕ} {is : List ℕ} → Path (List ℕ) (i ∷ is) [] → ⊥
cons_apart e = cc

not_here :
    (src : Bytes) (high i j : ℕ)
    → i ≡ j
    → j + 9 ≤ high
    → host_at src j ≡ true
    → leb (i + 9) high && host_at src i ≡ false
    → ⊥
not_here src high i j same fits here unlisted =
    let there : host_at src i ≡ true = rw same here in ground arith

-- A host that stands there is not at an index where none does.
beyond :
    (src : Bytes) (high i j : ℕ)
    → i ≤ j
    → j + 9 ≤ high
    → host_at src j ≡ true
    → leb (i + 9) high && host_at src i ≡ false
    → i < j
beyond src high i j low fits here unlisted = elim (Bool-cases (i == j)) [
  | inl same ↦ absurd (not_here src high i j (same_index i j same) fits here unlisted)
  | inr apart ↦ ground arith
]

every_host :
    (p : ℕ → Bool) (src : Bytes) (high left i : ℕ)
    → all p (hosts_by src high left i) ≡ true
    → (j : ℕ) → i ≤ j
    → j < i + left
    → j + 9 ≤ high
    → host_at src j ≡ true
    → p j ≡ true
unfolding hosts_by
every_host p src high zero i h j low inside fits here = absurd (omega arith)
every_host p src high (suc left) i h j low inside fits here =
    elim (Bool-cases (leb (i + 9) high && host_at src i)) [
      | inl listed ↦
          let both = rw (hosts_by, listed) at h in
          elim (Bool-cases (i == j)) [
            | inl same ↦ rw (← same_index i j same) (and_first (p i) _ both)
            | inr apart ↦
                every_host p src high left (suc i) (and_rest (p i) _ both) j (ground arith)
                  (omega arith) fits here
          ]
      | inr unlisted ↦
          every_host p src high left (suc i) (rw (hosts_by, unlisted) at h) j
            (beyond src high i j low fits here unlisted) (omega arith) fits here
    ]

hosts_by_every :
    (p : ℕ → Bool) (src : Bytes) (high left i : ℕ)
    → ((j : ℕ) → i ≤ j → j + 9 ≤ high → host_at src j ≡ true → p j ≡ true)
    → all p (hosts_by src high left i) ≡ true
unfolding hosts_by
hosts_by_every p src high zero i h = refl
hosts_by_every p src high (suc left) i h =
    let rest =
      hosts_by_every p src high left (suc i) (λ j low fits here. h j (omega arith) fits here) in
    elim (Bool-cases (leb (i + 9) high && host_at src i)) [
      | inl listed ↦ rw (hosts_by, listed, h i (omega arith) (ground arith) (ground arith)) rest
      | inr unlisted ↦ rw (hosts_by, unlisted) rest
    ]

-- A host that is listed stands in the file.
hosts_by_first :
    (src : Bytes) (high left i host : ℕ) (hosts : List ℕ)
    → hosts_by src high left i ≡ host ∷ hosts
    → IsHostIn src i high host
unfolding hosts_by IsHostIn
hosts_by_first src high zero i host hosts h = cc
hosts_by_first src high (suc left) i host hosts h =
    elim (Bool-cases (leb (i + 9) high && host_at src i)) [
      | inl listed ↦
          let same = first_item (rw (hosts_by, listed) at h) in
          rw (← same) (omega arith, ground arith, ground arith)
      | inr unlisted ↦
          let (low, fits, here) =
            hosts_by_first src high left (suc i) host hosts (rw (hosts_by, unlisted) at h) in
          (omega arith, fits, here)
    ]

-- A host that stands in the file is listed.
hosts_by_some :
    (src : Bytes) (high left i j : ℕ)
    → i ≤ j
    → j < i + left
    → j + 9 ≤ high
    → host_at src j ≡ true
    → hosts_by src high left i ≢ []
unfolding hosts_by
hosts_by_some src high zero i j low inside fits here e = omega arith
hosts_by_some src high (suc left) i j low inside fits here e =
    elim (Bool-cases (leb (i + 9) high && host_at src i)) [
      | inl listed ↦ cons_apart (rw (hosts_by, listed) at e)
      | inr unlisted ↦
          hosts_by_some src high left (suc i) j (beyond src high i j low fits here unlisted)
            (omega arith) fits here (rw (hosts_by, unlisted) at e)
    ]

judge_hosts_covers :
    (source : Source) (low high : ℕ) (hosts : List ℕ)
    → hosts_in source.bytes low high ≡ hosts
    → judge_hosts source low high hosts ≡ some true
    → HostsCovered source low high
unfolding HostsCovered IsHostIn
judge_hosts_covers source low high [] e h = none-ne-some h
judge_hosts_covers source low high (host ∷ hosts) e h = (
  (host, hosts_by_first source.bytes high (high - low) low host hosts e),
  λ j (before, fits, here). covered-IsExcused source j low high (
      every_host (λ start. covered source start low high) source.bytes high (high - low) low
        (rw (hosts_in, e) (some_inj h)) j before (omega arith) fits here),
)

judge_hosts_holds :
    (source : Source) (low high : ℕ) (hosts : List ℕ)
    → hosts ≢ []
    → all (λ start. covered source start low high) hosts ≡ true
    → judge_hosts source low high hosts ≡ some true
judge_hosts_holds source low high [] some_host h = absurd (some_host refl)
judge_hosts_holds source low high (host ∷ hosts) some_host h = ap some h

-- The judgement of the hosts of a part of a file.
pub judge_hosts-HostsCovered :
    (source : Source) (low high : ℕ)
    → (judge_hosts source low high (hosts_in source.bytes low high) ≡ some true)
      ↔ HostsCovered source low high
unfolding HostsCovered IsHostIn
judge_hosts-HostsCovered source low high = (
  judge_hosts_covers source low high (hosts_in source.bytes low high) refl,
  λ ((i, (before, fits, here)), every).
      judge_hosts_holds source low high (hosts_in source.bytes low high)
        (hosts_by_some source.bytes high (high - low) low i before (omega arith) fits here)
        (hosts_by_every (λ start. covered source start low high) source.bytes high (high - low) low
          (λ j after inside there.
            IsExcused-covered source j low high (every j (after, inside, there)))),
)
