-- ===== src/Agent/Consent.antt =====
-- What the agent promises about consent: an offer names a manifest by its digest, a download starts only
-- for the token of the digest on offer, and the offer is used up by it.
use atom_loops.Prelude.{ℕ, ◌+◌, ◌≤◌, ◌≡◌, false, Option, none, some, List, [], ◌∷◌, ◌++◌, arith}
use atom_loops.Prelude.Text.{Bytes, is_empty}
use atom_loops.Prelude.Hex.{encode_hex}
use atom_loops.Agent.Status.{consent_text}

-- The digest on offer, and those of the downloads in flight.
pub record View : Type 0 where
  pub offered : Option Bytes
  pub running : List Bytes

pub data Label : Type 0 where
  quiet : Label
  puts_up : Bytes → Label
  accepts : Bytes → Label

-- The hash of the token's text, in hexadecimal.
abbrev pub token_of : (Bytes → Bytes) → Bytes → Bytes
token_of sha256 d = encode_hex (sha256 (consent_text d))

pub data Allowed (sha256 : Bytes → Bytes) (v : View) : Label → View → Type 0 where
  stays : Allowed sha256 v quiet v
  withdraws : Allowed sha256 v quiet (record v { offered = none })
  makes_offer : (d : Bytes) → Allowed sha256 v (puts_up d) (record v { offered = some d })
  begins :
      (d token : Bytes)
      → v.offered ≡ some d
      → is_empty d ≡ false
      → token ≡ token_of sha256 d
      → Allowed sha256 v (accepts token) (record { offered = none; running = d ∷ v.running })
  ends :
      (before after : List Bytes) (d : Bytes)
      → v.running ≡ before ++ d ∷ after
      → Allowed sha256 v quiet (record v { running = before ++ after })

-- The labels of a run, the last one first.
pub data AllowedRun (sha256 : Bytes → Bytes) (v : View) : List Label → View → Type 0 where
  halts : AllowedRun sha256 v [] v
  goes_on :
      {l : Label} {ls : List Label} {u t : View}
      → AllowedRun sha256 v ls u
      → Allowed sha256 u l t
      → AllowedRun sha256 v (l ∷ ls) t

abbrev pub offer_count : Label → ℕ
offer_count quiet = 0
offer_count (puts_up d) = 1
offer_count (accepts t) = 0

abbrev pub accept_count : Label → ℕ
accept_count quiet = 0
accept_count (puts_up d) = 0
accept_count (accepts t) = 1

abbrev pub total : (Label → ℕ) → List Label → ℕ
total f [] = 0
total f (l ∷ ls) = f l + total f ls

-- An offer that stands counts for one.
abbrev pub standing : Option Bytes → ℕ
standing none = 0
standing (some d) = 1

module _ {sha256 : Bytes → Bytes} where
  counted_lem :
      {v u : View} {l : Label}
      → Allowed sha256 v l u
      → accept_count l + standing u.offered ≤ offer_count l + standing v.offered
  counted_lem stays = omega arith
  counted_lem withdraws = omega arith
  counted_lem {v} (makes_offer d) = omega arith
  counted_lem {v} (begins d t e n k) = rw e (omega arith)
  counted_lem (ends b a d e) = omega arith

  pub accepts-le-offers :
      {v t : View} {ls : List Label}
      → AllowedRun sha256 v ls t
      → total accept_count ls + standing t.offered ≤ total offer_count ls + standing v.offered
  accepts-le-offers halts = omega arith
  accepts-le-offers (goes_on r a) = omega (arith, counted_lem a, accepts-le-offers r)
