-- ===== src/Otad/Fetch/Redirects.antt =====
-- What a download asks of the network.
use atom_loops.Prelude.{
  ℕ, zero, suc, ◌≡◌, refl, ap, ◌∙◌, sym, Bool, true, false, Option, none, some, Bool-cases, inl,
  inr, if◌then◌else◌,
}
use atom_loops.Prelude.Text.{Bytes, codes, ◌=b◌, =b_iff}
use atom_loops.System.Io.{World, Outcome, failed, message, Io, fresh, pure, continue, ◌>>=◌}
use atom_loops.Otad.Fetch.{
  Url, Response, Network, get, get_within, settle_response, follow, no_hops_left, requested,
  answered, is_redirect,
}

abbrev https : Bytes
https = codes "https"

-- The world after a request.
abbrev asked : World → World
asked w = record w { next = suc w.next }

abbrev after_answer : (Response → Io Response) → Option Response → World → Outcome Response × World
after_answer k none w = (failed (message "fetch: request failed"), w)
after_answer k (some r) w = k r w

unroll :
    (net : Network) (k : Bytes → Response → Io Response) (url s : Bytes) (w : World)
    → net.scheme_of url ≡ some s
    → (requested net url (net.scheme_of url) >>= λ x. k x.0 x.1) w
      ≡ after_answer (k s) (net.respond w.next url) (asked w)
unfolding requested answered fresh ◌>>=◌
unroll net k url s w e = rw e (go (net.respond w.next url))
  where
    go :
        (o : Option Response)
        → continue {A = Bytes × Response}
            (continue
              (answered net o (asked w)).0
              (λ r. pure (s, r))
              (answered net o (asked w)).1).0
            (λ x. k x.0 x.1)
            (continue {B = Bytes × Response}
              (answered net o (asked w)).0
              (λ r. pure (s, r))
              (answered net o (asked w)).1).1
          ≡ after_answer (k s) o (asked w)
    go none = refl
    go (some r) = refl

module _ (net other : Network) (same_schemes : (u : Bytes) → net.scheme_of u ≡ other.scheme_of u)
    (agree : (n : ℕ) (u : Bytes)
      → net.scheme_of u ≡ some (codes "https")
      → net.respond n u ≡ other.respond n u)
    (located : (n : ℕ) (u : Bytes) (r : Response) (l : Url)
      → net.respond n u ≡ some r
      → r.location ≡ some l
      → net.scheme_of l.text ≡ some l.scheme) where
  abbrev Alike : (Bytes → Io Response) → (Bytes → Io Response) → Type 0
  Alike f g = (u : Bytes) (w : World) → net.scheme_of u ≡ some https → f u w ≡ g u w

  no_more_alike : (o : Option Url) → no_hops_left net o ≡ no_hops_left other o
  unfolding no_hops_left
  no_more_alike none = refl
  no_more_alike (some u) = refl

  follow-Alike :
      (f g : Bytes → Io Response)
      → Alike f g
      → (n : ℕ) (u : Bytes) (r : Response) → net.respond n u ≡ some r
      → (o : Option Url) → r.location ≡ o
      → (w : World) → follow net https f o w ≡ follow other https g o w
  unfolding follow
  follow-Alike f g h n u r e none l w = refl
  follow-Alike f g h n u r e (some v) l w = elim (Bool-cases (v.scheme =b https)) [
    | inl s ↦ rw s (h v.text w (located n u r v e l ∙ ap some ((=b_iff v.scheme https).0 s)))
    | inr s ↦ rw s refl
  ]

  settle_alike :
      (b : Bool) (r : Response) (f g : Option Url → Io Response) (w : World)
      → f r.location w ≡ g r.location w
      → (if b then f r.location else pure r) w ≡ (if b then g r.location else pure r) w
  settle_alike true r f g w h = h
  settle_alike false r f g w h = refl

  answer_alike :
      (f g : Response → Io Response) (w : World) (o : Option Response)
      → ((r : Response) → o ≡ some r → f r w ≡ g r w)
      → after_answer f o w ≡ after_answer g o w
  answer_alike f g w none h = refl
  answer_alike f g w (some r) h = h r refl

  round_alike :
      (f g : Bytes → Response → Io Response) (u : Bytes) (w : World)
      → net.scheme_of u ≡ some https
      → ((r : Response) → net.respond w.next u ≡ some r → f https r (asked w) ≡ g https r (asked w))
      → (requested net u (net.scheme_of u) >>= λ x. f x.0 x.1) w
        ≡ (requested other u (other.scheme_of u) >>= λ x. g x.0 x.1) w
  round_alike f g u w e h =
      unroll net f u https w e
      ∙ answer_alike (f https) (g https) (asked w) (net.respond w.next u) h
      ∙ ap (λ (o : Option Response). after_answer (g https) o (asked w)) (agree w.next u e)
      ∙ sym (unroll other g u https w (sym (same_schemes u) ∙ e))

  get_within-Alike : (n : ℕ) → Alike (get_within net n) (get_within other n)
  unfolding get_within settle_response
  get_within-Alike zero u w e =
      round_alike (λ s r. settle_response net (no_hops_left net) r)
        (λ s r. settle_response other (no_hops_left other) r) u w e
        (λ r q.
          settle_alike (is_redirect r.status) r (no_hops_left net) (no_hops_left other) (asked w)
            (ap (λ (m : Io Response). m (asked w)) (no_more_alike r.location)))
  get_within-Alike (suc n) u w e =
      round_alike (λ s r. settle_response net (follow net s (get_within net n)) r)
        (λ s r. settle_response other (follow other s (get_within other n)) r) u w e
        (λ r q.
          settle_alike (is_redirect r.status) r (follow net https (get_within net n))
            (follow other https (get_within other n)) (asked w)
            (follow-Alike (get_within net n) (get_within other n) (get_within-Alike n) w.next u r q
              r.location refl (asked w)))

  -- Two networks that give the same answers on https URLs, whatever else they say, and whose Location
  -- headers are parsed to the schemes that they are requested with, are the same to a download of an https
  -- URL: an answer over another scheme is never asked for.
  pub get-https :
      (u : Bytes) (w : World) → net.scheme_of u ≡ some (codes "https") → get net u w ≡ get other u w
  unfolding get
  get-https u w e = get_within-Alike 5 u w e
