-- ===== src/Agent/Server.antt =====
-- cmd/updated/main.go: the requests of newUpdateServer in any order. Each lock section of the status
-- store is a step. /check has two of them: what it polled is `checked` until it is advertised. What a
-- read of the status file gives is open in each step, since `updated poll` writes it too, and so is the
-- result of a poll.
pub mod Refines
pub mod Race
use atom_loops.Prelude.{
  ◌≡◌, Bool, true, false, Option, none, some, List, [], ◌∷◌, ◌++◌, if◌then◌else◌,
}
use atom_loops.Prelude.Text.{Bytes, codes}
use atom_loops.Prelude.Int.{ℤ}
use atom_loops.Agent.Status.{Status, zero_status, is_state}
use atom_loops.Agent.Store.{
  StatusStore, get_for_client, advertise_locked, claim_download, set_progress, to_publish,
}
use atom_loops.Agent.Consent.{Label, quiet, puts_up, accepts}

pub record System : Type 0 where
  pub store : StatusStore
  pub checked : List Status
  pub downloads : List Status

-- The Error that /check reports where the file could not be written.
unfoldable pub with_error : Option Bytes → Status → Status
with_error none s = s
with_error (some e) s = record s { state = codes "error"; error = e }

abbrev pub offer_of : Status → Label
offer_of s = if is_state (codes "available") s then puts_up s.manifest_sha256 else quiet

module _ (sha256 : Bytes → Bytes) where
  abbrev pub claimed : Option Status → Bytes → System → (Status × Bool) × StatusStore
  claimed seen token s = claim_download sha256 seen token s.store

  pub data Step (s : System) : Label → System → Type 0 where
    asks :
        (seen : Option Status)
        → Step s
            (offer_of (get_for_client seen s.store).0)
            (record s { store = (get_for_client seen s.store).1 })
    polls :
        (st : Status) (seen : Option Status) (e : Option Bytes)
        → Step s quiet
            (record s { checked = with_error e (to_publish st seen s.store).0 ∷ s.checked })
    advertises :
        (before after : List Status) (st : Status)
        → s.checked ≡ before ++ st ∷ after
        → Step s
            (offer_of st)
            (record s { store = advertise_locked st s.store; checked = before ++ after })
    downloads_start :
        (seen : Option Status) (token : Bytes)
        → (claimed seen token s).0.1 ≡ true
        → Step s (accepts token) (record s {
          store = (claimed seen token s).1;
          downloads = (claimed seen token s).0.0 ∷ s.downloads;
        })
    claim_refused :
        (seen : Option Status) (token : Bytes)
        → (claimed seen token s).0.1 ≡ false
        → Step s quiet (record s { store = (claimed seen token s).1 })
    progresses : (n all : ℤ) → Step s quiet (record s { store = set_progress n all s.store })
    completes :
        (before after : List Status) (d : Status)
        → s.downloads ≡ before ++ d ∷ after
        → Step s quiet (record s {
          store = record s.store { live = zero_status };
          downloads = before ++ after;
        })

  -- The labels of a run, the last one first.
  pub data Run (s : System) : List Label → System → Type 0 where
    idles : Run s [] s
    follows :
        {l : Label} {ls : List Label} {t u : System} → Run s ls t → Step t l u → Run s (l ∷ ls) u
