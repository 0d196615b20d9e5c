-- ===== src/Otad/Fetch/Requests.antt =====
-- How many requests a download makes.
use atom_loops.Prelude.{
  ℕ, zero, suc, ◌+◌, ◌≤◌, Bool, true, false, not, ◌&&◌, Option, none, some, arith, if◌then◌else◌,
}
use atom_loops.Prelude.Text.{Bytes, codes, ◌=b◌}
use atom_loops.System.Io.{
  World, Outcome, done, failed, lost, Io, Error, fresh, pure, throw, continue, ◌>>=◌,
}
use atom_loops.Otad.Fetch.{
  Url, Response, Network, get, get_within, settle_response, follow, no_hops_left, requested,
  answered, is_redirect,
}

-- The sequence uses up at most so many numbers, one for each request.
record Asks {A : Type 0} (n : ℕ) (m : Io A) : Type 0 where
  at : (w : World) → (m w).1.next ≤ w.next + n

Asks-pure : {A : Type 0} (a : A) (n : ℕ) → Asks n (pure a)
Asks-pure a n = record { at = λ w. omega arith }

module _ {A B : Type 0} (m n : ℕ) (f : Io A) (k : A → Io B) (first : Asks m f)
    (next : (a : A) → Asks n (k a)) where
  continue_lem :
      (x : Outcome A × World) (w : World)
      → x.1.next ≤ w.next + m
      → (continue x.0 k x.1).1.next ≤ w.next + (m + n)
  continue_lem (done a, v) w h = let g = (next a).at v in omega arith
  continue_lem (failed e, v) w h = omega arith
  continue_lem (lost, v) w h = omega arith

  Asks-bind : Asks (m + n) (f >>= k)
  unfolding ◌>>=◌
  Asks-bind = record { at = λ w. continue_lem (f w) w (first.at w) }

module _ (net : Network) where
  answered-Asks : (o : Option Response) → Asks 0 (answered net o)
  unfolding answered
  answered-Asks none = record { at = λ w. omega arith }
  answered-Asks (some r) = record { at = λ w. omega arith }

  fresh-Asks : Asks 1 fresh
  unfolding fresh
  fresh-Asks = record { at = λ w. omega arith }

  requested-Asks : (u : Bytes) (o : Option Bytes) → Asks 1 (requested net u o)
  unfolding requested
  requested-Asks u none = record { at = λ w. omega arith }
  requested-Asks u (some s) =
      Asks-bind 1 0 _ _ fresh-Asks
        λ n. Asks-bind 0 0 _ _ (answered-Asks (net.respond n u)) λ r. Asks-pure (s, r) 0

  no_hops_left-Asks : (o : Option Url) → Asks 0 (no_hops_left net o)
  unfolding no_hops_left
  no_hops_left-Asks none = record { at = λ w. omega arith }
  no_hops_left-Asks (some u) = record { at = λ w. omega arith }

  follow-Asks :
      (s : Bytes) (f : Bytes → Io Response) (n : ℕ)
      → ((u : Bytes) → Asks n (f u))
      → (o : Option Url) → Asks n (follow net s f o)
  unfolding follow
  follow-Asks s f n h none = record { at = λ w. omega arith }
  follow-Asks s f n h (some u) = go (s =b codes "https" && not (u.scheme =b codes "https"))
    where
      go :
          (b : Bool)
          → Asks n (if b then throw (Error.message "fetch: refusing redirect") else f u.text)
      go true = record { at = λ w. omega arith }
      go false = h u.text

  settle-Asks :
      (f : Option Url → Io Response) (n : ℕ)
      → ((o : Option Url) → Asks n (f o))
      → (r : Response) → Asks n (settle_response net f r)
  unfolding settle_response
  settle-Asks f n h r = go (is_redirect r.status)
    where
      go : (b : Bool) → Asks n (if b then f r.location else pure r)
      go true = h r.location
      go false = Asks-pure r n

  get_within-Asks : (n : ℕ) (u : Bytes) → Asks (1 + n) (get_within net n u)
  unfolding get_within
  get_within-Asks zero u =
      Asks-bind 1 0 _ _ (requested-Asks u (net.scheme_of u))
        λ x. settle-Asks (no_hops_left net) 0 no_hops_left-Asks x.1
  get_within-Asks (suc n) u = Asks-bind 1 (suc n) _ _ (requested-Asks u (net.scheme_of u)) λ x.
      settle-Asks (follow net x.0 (get_within net n)) (suc n)
        (follow-Asks x.0 (get_within net n) (suc n)
          (λ v. record { at = λ w. let h = (get_within-Asks n v).at w in omega arith }))
        x.1

  -- A download makes at most six requests, whatever the servers answer.
  pub get-requests : (u : Bytes) (w : World) → (get net u w).1.next ≤ w.next + 6
  unfolding get
  get-requests u w = (get_within-Asks 5 u).at w
