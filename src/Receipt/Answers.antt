-- ===== src/Receipt/Answers.antt =====
-- What an attestation collects of witnesses that are able or silent.
use khipu_consensus.Prelude.{
  ◌≡◌, refl, sym, ap, ◌∙◌, Bool, true, false, ◌&&◌, ◌||◌, Option, none, some, List, [], ◌∷◌, ◌++◌,
  append_assoc, arith, ◌⊎◌, inl, inr, Bool-cases, All, any, count, map, Text, Bytes, text,
}
use khipu_consensus.Prelude.Texts.{text_eq}
use khipu_consensus.Python.Value.{
  Value, str, obj, Fields, find, eq, is_str, truthy, or_else, eq-str_refl, eq-is_str_sym,
  eq-is_str_refl, hashable-is_str,
}
use khipu_consensus.Python.Dict.{lookup, member, dict_of}
use khipu_consensus.Python.Error.{ok}
use khipu_consensus.Python.Host.{Host}
use khipu_consensus.Verdict.{
  Moment, OrganCheck, canonical_json, statement, wire_row, sign_verdict, from_dict, verify_verdict,
}
use khipu_consensus.Verdict.Signing.{ReadsBack, IsKeyPair, verify-sign_verdict}
use khipu_consensus.Verdict.Total.{IsSigner, sign_verdict-IsSigner}
use khipu_consensus.Tally.{Item}
use khipu_consensus.Tally.Rows.{HasHash}
use khipu_consensus.Tally.Count.{vouches, vouched}
use khipu_consensus.Registry.{Witness, can_sign, sign}
use khipu_consensus.Registry.Fleet.{AreApart, AreApart-fewer}
use khipu_consensus.Policy.{named}
use khipu_consensus.Receipt.{collect, item_of}

-- `verdicts.get(w.organ, "allow")`: what a witness is asked to say
abbrev pub asked : Fields → Witness → Value
asked verdicts w = or_else (lookup w.organ (dict_of verdicts)) (str (text "allow"))

-- A witness that is asked to say a text and whose signature verifies under its published key.
pub record IsAble (H : Host) (a : Text) (verdicts : Fields) (reason lean_sha : Value)
    (moments : Value → Moment) (w : Witness) : Type 0 where
  pub o : Text
  pub x : Text
  pub organ : w.organ ≡ str o
  pub says : asked verdicts w ≡ str x
  pub named : truthy (str o) ≡ true
  pub pair : IsKeyPair H w.private_key_pem w.public_key_pem
  pub signer : IsSigner H w.private_key_pem
  pub back :
      ReadsBack H (statement H (str o) (str a) (str x) reason lean_sha (str (moments (str o)).now))
  pub body : Bytes
  pub writes :
      canonical_json H
        (obj (statement H (str o) (str a) (str x) reason lean_sha (str (moments (str o)).now)))
      ≡ ok body

-- a witness that can sign and is asked to allow
abbrev pub willing : Fields → Witness → Bool
willing verdicts w = can_sign w && eq (asked verdicts w) (str (text "allow"))

module _ (H : Host) (a : Text) (verdicts : Fields) (reason lean_sha : Value)
    (moments : Value → Moment) where
  -- A witness has no key, or is able.
  abbrev pub IsCorrect : Witness → Type 0
  IsCorrect w = (can_sign w ≡ false) ⊎ IsAble H a verdicts reason lean_sha moments w

  -- What is collected of a witness: its own verdict, which counts under its key exactly if the
  -- witness is willing, or nothing of a witness that is not.
  abbrev pub Answers : Witness → Option Fields → Type 0
  Answers w none = willing verdicts w ≡ false
  Answers w (some d) =
      ((from_dict d).organ ≡ w.organ)
      × (is_str w.organ ≡ true)
      × ((verify_verdict H (from_dict d) w.public_key_pem (str a)).counts ≡ willing verdicts w)

  -- the verdict of an able witness
  able_verdict :
      (o x : Text) (private_pem public_pem : Value) (m : Moment) (body : Bytes)
      → truthy (str o) ≡ true
      → IsKeyPair H private_pem public_pem
      → IsSigner H private_pem
      → ReadsBack H (statement H (str o) (str a) (str x) reason lean_sha (str m.now))
      → canonical_json H (obj (statement H (str o) (str a) (str x) reason lean_sha (str m.now)))
        ≡ ok body
      → (d : Fields) × (sign_verdict H
            (str o)
            (str a)
            (str x)
            private_pem
            reason
            lean_sha
            (str (text ""))
            m
          ≡ ok d)
        × ((from_dict d).organ ≡ str o)
        × ((verify_verdict H (from_dict d) public_pem (str a)).counts
            ≡ eq (str x) (str (text "allow")))
  unfolding from_dict wire_row find text_eq
  able_verdict o x private_pem public_pem m body named pair signer back writes =
      let (sig, made) =
        sign_verdict-IsSigner H (str o) (str a) (str x) private_pem reason lean_sha (str (text ""))
          m body writes signer in
      let d = wire_row H (str o) (str x) reason body sig in
      let checked =
        verify-sign_verdict H o a x private_pem public_pem reason lean_sha (str (text "")) m d
          (str a) named pair back made in
      (d, made, refl, ap (λ (c : OrganCheck). c.counts) checked ∙ rw (eq-str_refl a) refl)

  answer :
      (w : Witness)
      → IsCorrect w
      → (v : Option Fields) × (sign H w
            (str a)
            (asked verdicts w)
            reason
            lean_sha
            (str (text ""))
            (moments w.organ)
          ≡ ok v)
        × Answers w v
  unfolding sign
  answer w (inl silent) = (none, rw silent refl, rw silent refl)
  answer w (inr able) = elim (Bool-cases (can_sign w)) [
    | inr silent ↦ (none, rw silent refl, rw silent refl)
    | inl signs ↦
        let (d, made, own, counts) =
          able_verdict able.o able.x w.private_key_pem w.public_key_pem (moments (str able.o))
            able.body able.named able.pair able.signer able.back able.writes in
        let will : willing verdicts w ≡ eq (str able.x) (str (text "allow")) =
          rw (signs, able.says) refl in
        let is_text : is_str w.organ ≡ true = rw able.organ refl in
        (
          some d,
          rw (signs, able.says, able.organ, made) refl,
          (own ∙ sym able.organ, is_text, counts ∙ sym will),
        )
  ]

  -- A witness for each item, in order.
  abbrev pub All2 : List Witness → List (Option Fields) → Type 0
  All2 [] [] = Unit {0}
  All2 [] (v ∷ vs) = ⊥
  All2 (w ∷ ws) [] = ⊥
  All2 (w ∷ ws) (v ∷ vs) = Answers w v × All2 ws vs

  pub collect_total :
      (ws : List Witness)
      → All IsCorrect ws
      → (vs : List (Option Fields)) × (collect H (str a) verdicts reason lean_sha moments ws
          ≡ ok vs)
        × All2 ws vs
  unfolding collect
  collect_total [] h = ([], refl, tt)
  collect_total (w ∷ ws) (c, h) =
      let (v, signed, says) = answer w c in
      let (vs, rest, all_say) = collect_total ws h in
      (v ∷ vs, rw (signed, rest) refl, (says, all_say))

  Answers-HasHash : (w : Witness) (v : Option Fields) → Answers w v → HasHash (item_of v)
  Answers-HasHash w none h = tt
  Answers-HasHash w (some d) (own, is_text, counts) = rw own (hashable-is_str w.organ is_text)

  pub All2-HasHash :
      (ws : List Witness) (vs : List (Option Fields)) → All2 ws vs → All HasHash (map item_of vs)
  All2-HasHash [] [] h = tt
  All2-HasHash [] (v ∷ vs) h = absurd h
  All2-HasHash (w ∷ ws) [] h = absurd h
  All2-HasHash (w ∷ ws) (v ∷ vs) (c, h) = (Answers-HasHash w v c, All2-HasHash ws vs h)

  abbrev pub entry : Witness → Value × Value
  entry w = (w.organ, w.public_key_pem)

  abbrev pub speaks_for : Witness → Item → Bool
  speaks_for w = vouches H (str a) (entry w)

  -- The item of a witness vouches for that witness exactly if it is willing, and for no other.
  vouches_own :
      (w : Witness) (v : Option Fields)
      → Answers w v
      → speaks_for w (item_of v) ≡ willing verdicts w
  vouches_own w none h = sym h
  vouches_own w (some d) (own, is_text, counts) =
      let mine : eq (from_dict d).organ w.organ ≡ true = rw own (eq-is_str_refl w.organ is_text) in
      rw mine counts

  vouches_other :
      (u w : Witness) (v : Option Fields)
      → Answers w v
      → eq w.organ u.organ ≡ false
      → speaks_for u (item_of v) ≡ false
  vouches_other u w none h apart = refl
  vouches_other u w (some d) (own, is_text, counts) apart =
      let theirs : eq (from_dict d).organ u.organ ≡ false = rw own apart in rw theirs refl

  -- No witness of a list that is apart from a name speaks for the bearer of that name.
  any_other :
      (u : Witness) (ws : List Witness) (vs : List (Option Fields))
      → All2 ws vs
      → All (λ w. eq w.organ u.organ ≡ false) ws
      → any (speaks_for u) (map item_of vs) ≡ false
  any_other u [] [] h apart = refl
  any_other u [] (v ∷ vs) h apart = absurd h
  any_other u (w ∷ ws) [] h apart = absurd h
  any_other u (w ∷ ws) (v ∷ vs) (c, h) (new, apart) =
      rw (vouches_other u w v c new) (any_other u ws vs h apart)

  any-append : (p : Item → Bool) (xs ys : List Item) → any p (xs ++ ys) ≡ (any p xs || any p ys)
  any-append p [] ys = refl
  any-append p (x ∷ xs) ys = ground (arith, any-append p xs ys)

  -- The keys of a registry whose witnesses are apart and have keys that are not blank.
  abbrev pub HaveKeys : List Witness → Type 0
  HaveKeys = All (λ w. truthy w.public_key_pem ≡ true)

  abbrev pub AreTexts : List Witness → Type 0
  AreTexts = All (λ w. is_str w.organ ≡ true)

  others_apart :
      (u : Witness) (seen : List Value) (ws : List Witness)
      → is_str u.organ ≡ true
      → AreTexts ws
      → AreApart (u.organ ∷ seen) ws
      → All (λ w. eq w.organ u.organ ≡ false) ws
  unfolding member
  others_apart u seen [] t ts h = tt
  others_apart u seen (w ∷ ws) t (tw, ts) (new, h) = (
    ground (arith, new, eq-is_str_sym u.organ w.organ tw),
    others_apart u seen ws t ts (
        AreApart-fewer (u.organ ∷ seen) (w.organ ∷ u.organ ∷ seen) ws (λ v g. ground (arith, g)) h),
  )

  still_away :
      (w : Witness) (v : Option Fields) (ws : List Witness) (pre : List Item) (seen : List Value)
      → Answers w v
      → AreApart (w.organ ∷ seen) ws
      → All (λ u. any (speaks_for u) pre ≡ false) ws
      → All (λ u. any (speaks_for u) (pre ++ item_of v ∷ []) ≡ false) ws
  unfolding member
  still_away w v [] pre seen c apart away = tt
  still_away w v (u ∷ ws) pre seen c (new, apart) (none_before, away) = (
    ground (
      arith,
      any-append (speaks_for u) pre (item_of v ∷ []),
      none_before,
      vouches_other u w v c (ground (arith, new)),
    ),
    still_away w v ws pre seen c
        (AreApart-fewer (w.organ ∷ seen) (u.organ ∷ w.organ ∷ seen) ws (λ v g. ground (arith, g))
          apart)
        away,
  )

  pub count_willing :
      (ws : List Witness) (vs : List (Option Fields)) (pre : List Item) (seen : List Value)
      → All2 ws vs
      → HaveKeys ws
      → AreTexts ws
      → AreApart seen ws
      → All (λ w. any (speaks_for w) pre ≡ false) ws
      → count (vouched H (str a) (pre ++ map item_of vs)) (map entry ws)
        ≡ count (willing verdicts) ws
  count_willing [] [] pre seen h k ts apart away = refl
  count_willing [] (v ∷ vs) pre seen h k ts apart away = absurd h
  count_willing (w ∷ ws) [] pre seen h k ts apart away = absurd h
  count_willing (w ∷ ws) (v ∷ vs) pre seen (c, h) (kw, k) (tw, ts) (new, apart)
        (none_before, away) =
      let others = others_apart w seen ws tw ts apart in
      let all_items : pre ++ map item_of (v ∷ vs) ≡ (pre ++ item_of v ∷ []) ++ map item_of vs =
        sym (append_assoc pre (item_of v ∷ []) (map item_of vs)) in
      let own : vouched H (str a) (pre ++ map item_of (v ∷ vs)) (entry w) ≡ willing verdicts w =
        ground (
          arith,
          kw,
          any-append (speaks_for w) pre (map item_of (v ∷ vs)),
          none_before,
          vouches_own w v c,
          any_other w ws vs h others,
        ) in
      let later =
        count_willing ws vs (pre ++ item_of v ∷ []) (w.organ ∷ seen) h k ts apart
          (still_away w v ws pre seen c apart away) in
      ground (arith, own, all_items, later)
