-- ===== src/Adversary/Battery/Total.antt =====
-- When the battery's verdicts are made, and whose they are.
use khipu_consensus.Prelude.{ℕ, ◌≡◌, refl, true, Option, none, some, All, Text, Bytes, text}
use khipu_consensus.Prelude.Texts.{text_eq}
use khipu_consensus.Python.Value.{Value, str, obj, Fields, find, put}
use khipu_consensus.Python.Dict.{Dict, has_key}
use khipu_consensus.Python.Dict.Keys.{has_key-All}
use khipu_consensus.Python.Error.{Result, ok}
use khipu_consensus.Python.Base64.{b64encode}
use khipu_consensus.Python.Base64.RoundTrip.{IsByte, b64decode-b64encode}
use khipu_consensus.Python.Host.{Host}
use khipu_consensus.Verdict.{Moment, canonical_json, statement, wire_row, sign_verdict, from_dict}
use khipu_consensus.Verdict.Total.{IsSigner, sign_verdict-IsSigner}
use khipu_consensus.Adversary.Attacks.{
  forged_signature_verdict, impersonation_verdict, equivocation_verdict, tamper_verdict,
  replay_verdict, silent_verdict,
}
use khipu_consensus.Adversary.Battery.{
  action_a, action_b, Move, allows, blocks, silence, forged_signature, impersonation,
  action_mismatch, payload_tamper, replay, Sources, key_of, signed, play,
}

abbrev said : Host → (organ action verdict : Text) → Fields
said H o action x =
    statement H (str o) (str action) (str x) (str (text "")) (str (text "")) (str (text "seed"))

-- The statement of a witness has an encoding.
pub record IsWritten (H : Host) (organ action verdict : Text) : Type 0 where
  pub body : Bytes
  pub writes : canonical_json H (obj (said H organ action verdict)) ≡ ok body
  pub are_bytes : All IsByte body

-- The statements that a witness makes in the harness have encodings, and the one that blocks is
-- read back as an object that has an encoding once it is edited.
pub record Speaks (H : Host) (read : Bytes → Result Value) (organ : Text) : Type 0 where
  pub allows_a : IsWritten H organ action_a (text "allow")
  pub blocks_a : IsWritten H organ action_a (text "block")
  pub allows_b : IsWritten H organ action_b (text "allow")
  pub read_back : Fields
  pub reads : read blocks_a.body ≡ ok (obj read_back)
  pub edited : Bytes
  pub writes_edited :
      canonical_json H (obj (put (text "verdict") (str (text "allow")) read_back)) ≡ ok edited

-- A verdict in the name of a witness, or none.
abbrev pub IsBy : Text → Option Fields → Type 0
IsBy o none = Unit {0}
IsBy o (some d) = (from_dict d).organ ≡ str o

module _ (H : Host) (read : Bytes → Result Value) (S : Sources) where
  wire_row-IsBy :
      (o : Text) (x reason : Value) (body sig : Bytes)
      → IsBy o (some (wire_row H (str o) x reason body sig))
  unfolding wire_row from_dict find text_eq
  wire_row-IsBy o x reason body sig = refl

  -- the row that is made, of a statement that has an encoding
  sign_verdict_total :
      (o action x : Text) (private_pem : Value) (m : Moment)
      → (w : IsWritten H o action x) → IsSigner H private_pem
      → (sig : Bytes) × (sign_verdict H
            (str o)
            (str action)
            (str x)
            private_pem
            (str (text ""))
            (str (text ""))
            (str (text "seed"))
            m
          ≡ ok (wire_row H (str o) (str x) (str (text "")) w.body sig))
  sign_verdict_total o action x private_pem m w k =
      sign_verdict-IsSigner H (str o) (str action) (str x) private_pem (str (text ""))
        (str (text "")) (str (text "seed")) m w.body w.writes k

module _ (H : Host) (read : Bytes → Result Value) (S : Sources) (keys : Dict (Value × Value))
    (signers : All (λ (o, k). IsSigner H k.0) keys) (attacker : IsSigner H S.attacker.0) where
  -- A witness with a key, whose statements have encodings.
  abbrev pub IsReady : Text → Type 0
  IsReady o = Speaks H read o × (has_key (str o) keys ≡ true)

  pub key_of_total :
      (o : Text)
      → has_key (str o) keys ≡ true
      → (k : Value × Value) × (key_of keys o ≡ ok k) × IsSigner H k.0
  unfolding key_of
  key_of_total o h =
      let (k, found, signs) =
        has_key-All (λ (k : Value × Value). IsSigner H k.0) (str o) keys h signers in
      (k, rw (found, key_of) refl, signs)

  pub signed_total :
      (o action x : Text) (m : Moment)
      → (w : IsWritten H o action x) → has_key (str o) keys ≡ true
      → (sig : Bytes) × (signed H read S keys o action x m
          ≡ ok (wire_row H (str o) (str x) (str (text "")) w.body sig))
  unfolding signed
  signed_total o action x m w h =
      let (k, found, signs) = key_of_total o h in
      let (sig, made) = sign_verdict_total H read S o action x k.0 m w signs in (sig, rw found made)

  -- a genuine verdict whose payload is edited
  tamper_total :
      (o : Text) (s : Speaks H read o) (sig : Bytes)
      → (d : Fields) × (tamper_verdict H read
            (wire_row H (str o) (str (text "block")) (str (text "")) s.blocks_a.body sig)
            none
            (some (str (text "allow")))
          ≡ ok d)
        × IsBy o (some d)
  unfolding tamper_verdict wire_row find put text_eq from_dict
  tamper_total o s sig = (
    put (text "payload") (str (b64encode s.edited)) (
        put (text "verdict") (str (text "allow"))
          (wire_row H (str o) (str (text "block")) (str (text "")) s.blocks_a.body sig)),
    rw (b64decode-b64encode s.blocks_a.body s.blocks_a.are_bytes, s.reads, s.writes_edited) refl,
    refl,
  )

  -- Whatever move is chosen for a witness that is ready, it is made in the witness's name.
  abbrev pub Plays : Move → Text → Type 0
  Plays move o = (r i : ℕ) → (v : Option Fields) × (play H read S keys move o r i ≡ ok v) × IsBy o v

  pub made :
      (o x : Text) (body sig : Bytes)
      → IsBy o (some (wire_row H (str o) (str x) (str (text "")) body sig))
  made o x body sig = wire_row-IsBy H read S o (str x) (str (text "")) body sig

  pub silence_total : (o : Text) → Plays silence o
  unfolding play silent_verdict
  silence_total o r i = (none, refl, tt)

  pub play_total : (move : Move) (o : Text) → IsReady o → Plays move o
  unfolding play forged_signature_verdict impersonation_verdict equivocation_verdict replay_verdict
  play_total allows o (s, h) r i =
      let (sig, e) = signed_total o action_a (text "allow") (S.moment r i) s.allows_a h in
      (some _, rw e refl, made o (text "allow") s.allows_a.body sig)
  play_total blocks o (s, h) r i =
      let (sig, e) = signed_total o action_a (text "block") (S.moment r i) s.blocks_a h in
      (some _, rw e refl, made o (text "block") s.blocks_a.body sig)
  play_total silence o (s, h) r i = silence_total o r i
  play_total forged_signature o (s, h) r i =
      (some _, rw s.allows_a.writes refl, made o (text "allow") s.allows_a.body (S.urandom r i))
  play_total impersonation o (s, h) r i =
      let (sig, e) =
        sign_verdict_total H read S o action_a (text "allow") S.attacker.0 (S.moment r i) s.allows_a
          attacker in
      (some _, rw e refl, made o (text "allow") s.allows_a.body sig)
  play_total action_mismatch o (s, h) r i =
      let (k, found, signs) = key_of_total o h in
      let (sig, e) =
        sign_verdict_total H read S o action_b (text "allow") k.0 (S.moment r i) s.allows_b signs in
      (some _, rw (found, e) refl, made o (text "allow") s.allows_b.body sig)
  play_total payload_tamper o (s, h) r i =
      let (sig, e) = signed_total o action_a (text "block") (S.moment r i) s.blocks_a h in
      let (d, edits, by) = tamper_total o s sig in (some d, rw (e, edits) refl, by)
  play_total replay o (s, h) r i =
      let (sig, e) = signed_total o action_b (text "allow") (S.moment r i) s.allows_b h in
      (some _, rw e refl, made o (text "allow") s.allows_b.body sig)
