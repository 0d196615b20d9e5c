-- ===== src/Agent/Feed/Versions.antt =====
-- What the agent offers as newer, against what the daemon refuses as a downgrade.
use atom_loops.Prelude.{◌≡◌, inl, inr, true, false, none, some, arith, length, ◌==◌, Bool-cases}
use atom_loops.Prelude.Text.{Bytes}
use atom_loops.Prelude.Int.{ℤ}
use atom_loops.Deployment.Transition.{digits_start}
use atom_loops.Otad.Version.{version_num, is_downgrade}
use atom_loops.Otad.Version.Order.{version_num-atoi}
use atom_loops.Agent.Feed.{feed_version_num, newer}

-- The release name ends in no digit, or in a number that is an `int`.
pub data HasVersion (v : Bytes) : Type 0 where
  unnumbered : digits_start v (length v) == length v ≡ true → HasVersion v
  numbered : (n : ℤ) → feed_version_num v ≡ some n → HasVersion v

-- Both programs read one number.
number_lem : (v : Bytes) (n : ℤ) → feed_version_num v ≡ some n → version_num v ≡ some n
unfolding feed_version_num
number_lem v n h = elim (Bool-cases (digits_start v (length v) == length v)) [
  | inl e ↦ absurd (ground arith)
  | inr e ↦ version_num-atoi v n e (ground arith)
]

unnumbered_lem : (v : Bytes) → digits_start v (length v) == length v ≡ true → version_num v ≡ none
unfolding version_num
unnumbered_lem v h = rw h

-- A release that the agent finds newer than another is no downgrade for the daemon, where each of the two
-- names ends in no digit or in a number that is an `int`.
pub newer-not_downgrade :
    (a b : Bytes) → HasVersion a → HasVersion b → newer a b ≡ true → is_downgrade a b ≡ false
unfolding newer is_downgrade
newer-not_downgrade a b (unnumbered h) p e = ground (arith, unnumbered_lem a h)
newer-not_downgrade a b (numbered n h) (unnumbered k) e =
    ground (arith, number_lem a n h, unnumbered_lem b k)
newer-not_downgrade a b (numbered n h) (numbered m k) e =
    ground (arith, number_lem a n h, number_lem b m k)
