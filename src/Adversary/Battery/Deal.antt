-- ===== src/Adversary/Battery/Deal.antt =====
-- The verdicts of a scenario and of a round of fuzzing are made if the witnesses are ready.
use khipu_consensus.Prelude.{
  ℕ, suc, ◌+◌, ◌≤◌, ◌≡◌, refl, Option, none, some, List, [], ◌∷◌, ◌++◌, arith, All, count, Text,
  Bytes,
}
use khipu_consensus.Prelude.Texts.{text_eq}
use khipu_consensus.Python.Value.{Value, str, Fields}
use khipu_consensus.Python.Dict.{Dict}
use khipu_consensus.Python.Dict.Keys.{insert-All}
use khipu_consensus.Python.Error.{Result, ok}
use khipu_consensus.Python.Host.{Host}
use khipu_consensus.Tally.{Item}
use khipu_consensus.Verdict.Total.{IsSigner}
use khipu_consensus.Adversary.Battery.{
  Move, allows, blocks, silence, forged_signature, impersonation, action_mismatch, payload_tamper,
  replay, Sources, item, plays, genuine, deal,
}
use khipu_consensus.Adversary.Battery.Total.{IsBy, IsReady, Plays, play_total}
use khipu_consensus.Adversary.Battery.Rounds.{
  IsNamed, IsText, names, append-All, count-append, IsBy-IsNamed, IsBy-names,
}

genuine-All :
    (move : Move) (o : Text) (v : Option Fields) (used : Dict Fields)
    → IsBy o v
    → All (λ (k, d). IsText d) used
    → All (λ (k, d). IsText d) (genuine move o v used)
genuine-All allows o none used h a = a
genuine-All allows o (some d) used h a = insert-All IsText (str o) d used (o, h) a
genuine-All blocks o v used h a = a
genuine-All silence o v used h a = a
genuine-All forged_signature o v used h a = a
genuine-All impersonation o v used h a = a
genuine-All action_mismatch o v used h a = a
genuine-All payload_tamper o v used h a = a
genuine-All replay o v used h a = a

module _ (H : Host) (read : Bytes → Result Value) (S : Sources) (keys : Dict (Value × Value))
    (signers : All (λ (o, k). IsSigner H k.0) keys) (attacker : IsSigner H S.attacker.0) where
  -- A witness that is there and plays the move.
  abbrev pub IsCast : Result Text × Move → Type 0
  IsCast (who, move) = (o : Text) × (who ≡ ok o) × Plays H read S keys signers attacker move o

  pub plays_total :
      (cast : List (Result Text × Move)) (r i : ℕ)
      → All IsCast cast
      → (is : List Item) × (plays H read S keys r i cast ≡ ok is) × All IsNamed is
  unfolding plays
  plays_total [] r i h = ([], refl, tt)
  plays_total ((who, move) ∷ cast) r i ((o, is_who, plays_it), h) =
      let (v, played, by) = plays_it r i in
      let (is, rest, named) = plays_total cast r (suc i) h in
      (item v ∷ is, rw (is_who, played, rest) refl, (IsBy-IsNamed o v by, named))

  -- The verdicts dealt to the organs, after those that are there: each in its organ's name.
  pub deal_total :
      (os : List Text) (r i : ℕ) (used : Dict Fields) (is : List Item)
      → All (IsReady H read S keys signers attacker) os
      → All (λ (k, d). IsText d) used
      → All IsNamed is
      → (out : List Item × Dict Fields) × (deal H read S keys r i os used is ≡ ok out)
        × All IsNamed out.0
        × All (λ (k, d). IsText d) out.1
        × ((k : Text) → count (names k) out.0 ≤ count (names k) is + count (λ o. text_eq o k) os)
  unfolding deal
  deal_total [] r i used is h u n = ((is, used), refl, n, u, λ k. omega arith)
  deal_total (o ∷ os) r i used is (ready, h) u n =
      let (v, played, by) = play_total H read S keys signers attacker (S.choice r i) o ready r i in
      let (out, rest, named, texts, counted) =
        deal_total os r (suc i) (genuine (S.choice r i) o v used) (is ++ item v ∷ []) h
          (genuine-All (S.choice r i) o v used by u)
          (append-All IsNamed is (item v ∷ []) n (IsBy-IsNamed o v by, tt)) in
      (
        out,
        rw played rest,
        named,
        texts,
        λ k.
            ground (arith, counted k, count-append (names k) is (item v ∷ []), IsBy-names o k v by),
      )
