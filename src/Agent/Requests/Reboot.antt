-- ===== src/Agent/Requests/Reboot.antt =====
-- When the agent restarts the machine.
use atom_loops.Prelude.{◌≡◌, true, false, Bool}
use atom_loops.Prelude.Text.{codes}
use atom_loops.System.Returns.{Returns}
use atom_loops.Otad.Outside.{Outside}
use atom_loops.Agent.Status.{Status, StatusJson, is_state}
use atom_loops.Agent.Store.{StatusStore}
use atom_loops.Agent.Feed.{Client}
use atom_loops.Agent.Requests.{AgentConfig, Flock, granted, RebootClaim, claimed}

module _ (ext : Outside) (client : Client) (json : StatusJson) (c : AgentConfig) (l : Flock)
    (st : StatusStore) where
  -- The restart is claimed only so, and the lock is held for nothing else.
  abbrev Claims : RebootClaim × Bool → Type 0
  Claims r =
      (r.0 ≡ claimed
        → (r.1 ≡ true) × (l ≡ granted) × (is_state (codes "downloading") st.live ≡ false))
      × (r.1 ≡ true → r.0 ≡ claimed)
