-- ===== src/Lib.antt =====
-- khipu-consensus: consensus of several witnesses by signed verdicts.
--
-- The program. A witness ("organ") signs a statement about an action, and anyone can count the
-- statements that verify: a decision is canonical if enough distinct witnesses allow the exact
-- action. Around this count stand the registry of witnesses, the coordinator that collects one
-- verdict from each and makes a receipt, the verifier that checks a receipt against a policy of its
-- own, a command line, an HTTP service and a client, a harness that attacks the count, a simulation
-- of colluding witnesses, and a fold of the decision onto the receipts of another package. Two
-- scripts guard the repository: one looks for a prohibited host in the tracked files, the other
-- builds a package and binds it to its tag before it is published.
--
-- The files.
--   Prelude    shared names: native numbers, lists, integers, texts as lists of code points
--   Python     what the program uses of the language: values of JSON, dicts and sets, exceptions
--              as results, UTF-8, base64, and the record Host of the functions that it only calls
--   Verdict    python/khipu_consensus/__init__.py: canonical_json, pae, OrganVerdict, OrganCheck,
--              sign_verdict, verify_verdict. `pae_bytes`, `statement` and `wire_row` are parts of
--              pae and sign_verdict, `verify_signed` is the try block of verify_verdict
--   Tally      python/khipu_consensus/__init__.py: _valid_quorum_counts and tally, whose loop is
--              `run` on the state `Progress`, with `step` for one item
--   Registry   python/khipu_consensus/witness.py: Witness and WitnessRegistry
--   Receipt    python/khipu_consensus/witness.py: MultiWitnessReceipt and attest
--   Policy     python/khipu_consensus/witness.py: _resolve_trust_policy, _embedded_pubkeys and
--              _validate_signature_entries
--   Verify     python/khipu_consensus/witness.py: verify_receipt, which is `verify_under` once
--              the policy is resolved
--   Adversary  python/khipu_consensus/adversary.py: the oracle, the safety check, the hardened and
--              the naive tally, the attacks (Attacks), one scenario (Scenario), the verdicts of the
--              battery and of a round of fuzzing (Battery), and run_adversarial_suite with the exit
--              code of _main (Suite). `play` makes one verdict of a scenario or a round
--   Cli        python/khipu_consensus/cli.py: the exit code of main
--   Service    service/app.py: the handlers and their replies
--   Sdk        python/khipu_consensus/sdk.py: KhipuWitnessClient
--   Spine      python/khipu_consensus/spine.py: the bodies, digests and the rebinding of a receipt
--   Collusion  python/khipu_consensus/collusion.py: rounds, campaigns and the lane (Lane)
--   Scan       .github/scripts/forbidden_domain_scan.py: the patterns and loops over bytes (Marks),
--              FAMILIES and EXTENSIONS (Family), advance, scan_string and scan_regex (Tokens), _lex
--              (Lexer), _lex_prose and the class Source (Source), guard_binding and guard_name
--              (Guard), the shapes KEYED and ABSENT (Shapes) and PROSE (Prose), covered and judge
--              (Judge), tracked_sources (Index), batch_matches and the batches (Ripgrep),
--              filter_violations and the exit code of main (Gate)
--   Release    .github/scripts/szl_pypi_release_gate.py: norm, parse_packages and the pattern of a
--              tag (Names), what gate_package asks of pyproject.toml (Project) and of the wheel
--              (Wheel), the tag binding, gate_package and main (Gate)
--   Tests      a small concrete host, and each theorem at a concrete input
--
-- How they interact. Cli, Service and Sdk call Verify, which resolves a Policy, checks the rows of
-- the receipt and calls Tally, which calls Verdict for each row. Receipt calls Registry to sign and
-- Tally to count. Adversary calls Tally and Verdict; Spine reads what Receipt makes. Scan is a
-- program of its own: Gate takes the paths of Index, hands their batches to Ripgrep, and asks Judge
-- about each match, which reads the segments of Source. Release is another: for each package that
-- main of Gate selects, it asks Project and then Wheel.
--
-- Choices. An untrusted field holds any Value, so every branch on its type is there. An exception
-- is the result `err`, and a bind stops at it as the program does. A float is a dyadic number; NaN
-- and the infinities are left out. Most loops are structural recursion on the list that the program
-- goes through, or on the number of rounds. The others have fuel: the decimal digits of a number
-- one more than the number, which has fewer digits, and the loops of Scan over a file as many
-- rounds as there are bytes ahead, or behind for a loop that goes back, since each round goes by
-- one byte at least. The lexer has one more. Regular expressions are written out as tests at an
-- index, where no two matches of a pattern overlap. In Scan and Release the result `none` is the
-- exit of `fail`, or an exception that ends the program.
--
-- Parameters. Code outside the repository is an argument: keys, ECDSA, SHA-256 and the text of JSON
-- in Python.Host, the package szl_receipt in Spine.SzlReceipt, requests in Sdk.Transport, the tools
-- of the simulation in Collusion.Tools, Git and the file system in Scan.Index.Checkout, ripgrep and
-- two decoders in Scan.Ripgrep.Ripgrep, the tools of a build and the package index in
-- Release.Gate.Tools, the tables of Unicode in Release.Names.Characters, the reading of files. What
-- a theorem relies on of them is a hypothesis: Verdict.Signing.IsKeyPair,
-- Verdict.Signing.ReadsBack, Adversary.Attacks.Rejects, Adversary.Tampered.IsForeign,
-- Adversary.Tampered.IsBoundTo, Adversary.Suite.Ready.IsEquipped, Receipt.Rows.IsProductive,
-- Collusion.Outcomes.Distinguishes. The draws of `random` and the fresh keys of the harness are the
-- record Adversary.Battery.Sources, which may hold any functions.
--
-- Not modelled: what is printed, the framework of the service, the constant texts of the harness's
-- report, what the release gate hands to later jobs, the demo, and the ports to Go and TypeScript.
pub mod Prelude
pub mod Python
pub mod Verdict
pub mod Tally
pub mod Adversary
pub mod Registry
pub mod Receipt
pub mod Policy
pub mod Verify
pub mod Tests
pub mod Service
pub mod Sdk
pub mod Cli
pub mod Spine
pub mod Collusion
pub mod Release
pub mod Scan
