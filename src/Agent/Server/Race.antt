-- ===== src/Agent/Server/Race.antt =====
-- Two checks that overlap.
use atom_loops.Prelude.{◌≡◌, refl, Bool, true, false, none, List, [], ◌∷◌, arith, Option}
use mathlib.Core.Path.{subst}
use atom_loops.Prelude.Text.{Bytes, codes, is_empty, =b_refl}
use atom_loops.Agent.Status.{Status, zero_status, is_state, client_status}
use atom_loops.Agent.Store.{StatusStore, claim_download, started, to_publish, advertise_locked}
use atom_loops.Agent.Consent.{Label, quiet, accepts, token_of}
use atom_loops.Agent.Server.{
  System, Step, polls, advertises, downloads_start, completes, Run, idles, follows, with_error,
  offer_of,
}

abbrev pub new_server : System
new_server = record {
  store = record { live = zero_status; advertised = zero_status };
  checked = [];
  downloads = [];
}

module _ (sha256 : Bytes → Bytes) (s : Status) (available : is_state (codes "available") s ≡ true)
    (digest : is_empty s.manifest_sha256 ≡ false)
    (token : is_empty (token_of sha256 s.manifest_sha256) ≡ false) where
  granted :
      (live : Status) (seen : Option Status)
      → claim_download sha256 seen
          (token_of sha256 s.manifest_sha256)
          (record { live = live; advertised = s })
        ≡ ((s, true), record { live = started s; advertised = zero_status })
  unfolding claim_download client_status
  granted live seen = ground (arith, =b_refl (token_of sha256 s.manifest_sha256))

  -- The store after an offer and after its claim, with the checks and the downloads.
  abbrev offering : Status → List Status → List Status → System
  offering live cs ds = record {
    store = record { live = live; advertised = s };
    checked = cs;
    downloads = ds;
  }

  abbrev claimed_by : List Status → List Status → System
  claimed_by cs ds = record {
    store = record { live = started s; advertised = zero_status };
    checked = cs;
    downloads = ds;
  }

  polled :
      (cs : List Status)
      → Step sha256
          (record new_server { checked = cs })
          quiet
          (record new_server { checked = s ∷ cs })
  unfolding to_publish with_error
  polled cs = polls s none none

  advertised_lem :
      (live adv : Status)
      → advertise_locked s (record { live = live; advertised = adv })
        ≡ record { live = live; advertised = s }
  unfolding advertise_locked
  advertised_lem live adv = rw available

  offered_again :
      (live : Status) (cs ds : List Status) (adv : Status)
      → Step sha256
          (record {
            store = record { live = live; advertised = adv };
            checked = s ∷ cs;
            downloads = ds;
          })
          (offer_of s)
          (offering live cs ds)
  offered_again live cs ds adv =
      subst
        (λ st.
          Step sha256
            (record {
              store = record { live = live; advertised = adv };
              checked = s ∷ cs;
              downloads = ds;
            })
            (offer_of s) (record { store = st; checked = cs; downloads = ds }))
        (advertised_lem live adv) (advertises [] cs s refl)

  taken :
      (live : Status) (cs ds : List Status)
      → Step sha256
          (offering live cs ds)
          (accepts (token_of sha256 s.manifest_sha256))
          (claimed_by cs (s ∷ ds))
  taken live cs ds =
      let g = granted live none in
      subst
        (λ (r : (Status × Bool) × StatusStore).
          Step sha256 (offering live cs ds) (accepts (token_of sha256 s.manifest_sha256))
            (record { store = r.1; checked = cs; downloads = r.0.0 ∷ ds }))
        g (downloads_start none (token_of sha256 s.manifest_sha256) (rw g))

  -- Where two checks poll an available status before either advertises it, its token starts two downloads,
  -- and when one of them ends the other is in flight with no live status.
  pub two_downloads :
      (ls : List Label) × (t : System) × (u : System) × Run sha256 new_server ls t
      × Step sha256 t quiet u
      × (t.downloads ≡ s ∷ s ∷ [])
      × (u.downloads ≡ s ∷ [])
      × (u.store.live ≡ zero_status)
  two_downloads =
      let token' = token_of sha256 s.manifest_sha256 in
      (
        accepts token' ∷ offer_of s ∷ accepts token' ∷ offer_of s ∷ quiet ∷ quiet ∷ [],
        claimed_by [] (s ∷ s ∷ []),
        record {
          store = record { live = zero_status; advertised = zero_status };
          checked = [];
          downloads = s ∷ [];
        },
        follows
            (follows
              (follows
                (follows (follows (follows idles (polled [])) (polled (s ∷ [])))
                  (offered_again zero_status (s ∷ []) [] zero_status))
                (taken zero_status (s ∷ []) []))
              (offered_again (started s) [] (s ∷ []) zero_status))
            (taken (started s) [] (s ∷ [])),
        completes [] (s ∷ []) s refl,
        refl,
        refl,
        refl,
      )
