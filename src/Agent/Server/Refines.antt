-- ===== src/Agent/Server/Refines.antt =====
-- The status store keeps the promise of consent.
use atom_loops.Prelude.{
  ◌+◌, ◌≤◌, ◌≡◌, refl, true, false, Option, none, some, List, [], ◌∷◌, ◌++◌, arith, Bool-cases, inl,
  inr, if◌then◌else◌,
}
use atom_loops.Prelude.Text.{Bytes, codes, is_empty, =b_iff}
use atom_loops.Prelude.Int.{ℤ}
use atom_loops.Prelude.Hex.{encode_hex}
use atom_loops.Agent.Status.{Status, zero_status, is_state, client_status, consent_text}
use atom_loops.Agent.Store.{
  StatusStore, get_for_client, current_locked, advertise_locked, claim_download, set_progress,
  started,
}
use atom_loops.Agent.Consent.{
  View, Label, Allowed, AllowedRun, stays, withdraws, makes_offer, begins, ends, halts, goes_on,
  token_of, accepts-le-offers, total, accept_count, offer_count, standing,
}
use atom_loops.Agent.Server.{
  System, offer_of, Step, asks, polls, advertises, downloads_start, claim_refused, progresses,
  completes, Run, idles, follows,
}

-- What a client can see of the consent.
abbrev pub offered_by : Status → Option Bytes
offered_by s = if is_state (codes "available") s then some s.manifest_sha256 else none

abbrev pub digests : List Status → List Bytes
digests [] = []
digests (s ∷ ss) = s.manifest_sha256 ∷ digests ss

abbrev pub view : System → View
view s = record { offered = offered_by s.store.advertised; running = digests s.downloads }

digests-append : (xs ys : List Status) → digests (xs ++ ys) ≡ digests xs ++ digests ys
digests-append [] ys = refl
digests-append (x ∷ xs) ys = rw (digests-append xs ys)

module _ (sha256 : Bytes → Bytes) where
  -- A claim that succeeds has shown the token of what is on offer.
  pub claim_consents :
      (seen : Option Status) (token : Bytes) (st : StatusStore)
      → (claim_download sha256 seen token st).0.1 ≡ true
      → (is_state (codes "available") st.advertised ≡ true)
        × (is_empty st.advertised.manifest_sha256 ≡ false)
        × (token ≡ token_of sha256 st.advertised.manifest_sha256)
        × (claim_download sha256 seen token st ≡ (
          (st.advertised, true),
          record { live = started st.advertised; advertised = zero_status },
        ))
  unfolding claim_download client_status
  claim_consents seen token st h =
      ground
        (arith, =b_iff (encode_hex (sha256 (consent_text st.advertised.manifest_sha256))) token)

  pub refused_claim :
      (seen : Option Status) (token : Bytes) (st : StatusStore)
      → (claim_download sha256 seen token st).0.1 ≡ false
      → (claim_download sha256 seen token st).1 ≡ st
  unfolding claim_download
  refused_claim seen token st h = ground arith

  advertised_lem :
      (s : Status) (v : View)
      → Allowed sha256 v (offer_of s) (record v {
        offered = offered_by (if is_state (codes "available") s then s else zero_status);
      })
  advertised_lem s v = elim (Bool-cases (is_state (codes "available") s)) [
    | inl e ↦ rw (e, e) (makes_offer s.manifest_sha256)
    | inr e ↦ rw (e) withdraws
  ]

  set_progress-advertised :
      (n all : ℤ) (st : StatusStore) → (set_progress n all st).advertised ≡ st.advertised
  unfolding set_progress
  set_progress-advertised n all st = ground arith

  step_lem :
      {s : System} {l : Label} {t : System} → Step sha256 s l t → Allowed sha256 (view s) l (view t)
  unfolding get_for_client advertise_locked
  step_lem {s = s} (asks seen) = advertised_lem (current_locked seen s.store) (view s)
  step_lem (polls st seen e) = stays
  step_lem {s = s} (advertises before after st e) = advertised_lem st (view s)
  step_lem {s = s} (downloads_start seen token h) =
      let c = claim_consents seen token s.store h in
      rw c.3 (begins s.store.advertised.manifest_sha256 token (rw c.0) c.1 c.2)
  step_lem {s = s} (claim_refused seen token h) =
      let e = refused_claim seen token s.store h in rw e stays
  step_lem {s = s} (progresses n all) = rw (set_progress-advertised n all s.store) stays
  step_lem {s = s} (completes before after d e) = rw (digests-append before after) (
      ends (digests before) (digests after) d.manifest_sha256
        (rw e (digests-append before (d ∷ after))))

  -- In whatever order the requests come and the downloads end, what the server does to its status store is
  -- allowed by the promise of consent: a download starts only for the token of the digest on offer, which
  -- is not empty, and the offer is used up by it.
  pub server_refines :
      {s : System} {ls : List Label} {t : System}
      → Run sha256 s ls t
      → AllowedRun sha256 (view s) ls (view t)
  server_refines idles = halts
  server_refines (follows r st) = goes_on (server_refines r) (step_lem st)

  -- A run starts no more downloads than it makes offers, beside one that stood before it.
  pub downloads-le-offers :
      {s : System} {ls : List Label} {t : System}
      → Run sha256 s ls t
      → total accept_count ls ≤ total offer_count ls + standing (view s).offered
  downloads-le-offers r = omega (arith, accepts-le-offers (server_refines r))
