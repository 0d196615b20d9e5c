-- ===== src/Otad/Fetch.antt =====
-- internal/otad/fetch.go: downloads. The HTTP client with its retries and the parser of URLs are the
-- parameter Network; each request is told its number, so a server may answer differently every time.
pub mod Redirects
pub mod Requests
pub mod Frame
use atom_loops.Prelude.{
  ℕ, zero, suc, Bool, true, false, not, ◌&&◌, ◌||◌, Option, none, some, ◌==◌, length, if◌then◌else◌,
}
use atom_loops.Prelude.Text.{Bytes, codes, ◌=b◌}
use atom_loops.System.Files.{FilePath, suffixed}
use atom_loops.System.Io.{
  Io, message, errno, pure, throw, fresh, ignore, on_error, settle, create, write, rename, remove,
  ◌>>=◌, ◌>>◌,
}
use atom_loops.Otad.Slots.{sync_dir}

pub record Url : Type 0 where
  pub scheme : Bytes
  pub text : Bytes

-- `location` is the parsed Location header, `complete` tells that the transfer does not break off.
pub record Response : Type 0 where
  pub status : ℕ
  pub location : Option Url
  pub body : Bytes
  pub complete : Bool

-- `scheme_of` is that of the URL of a request, `none` where there is no such request; `respond` is `none`
-- where the client gives up.
pub record Network : Type 0 where
  pub scheme_of : Bytes → Option Bytes
  pub respond : ℕ → Bytes → Option Response

abbrev pub is_redirect : ℕ → Bool
is_redirect s = s == 301 || s == 302 || s == 303 || s == 307 || s == 308

module _ (net : Network) where
  open net use {scheme_of, respond}

  answered : Option Response → Io Response
  answered none = throw (message "fetch: request failed")
  answered (some r) = pure r

  -- One round of the loop in `get`: the request, and the scheme it was made with.
  requested : Bytes → Option Bytes → Io (Bytes × Response)
  requested url none = throw (message "fetch: bad url")
  requested url (some s) = do n ← fresh; r ← answered (respond n url); pure (s, r)

  -- A redirect where the hops are spent.
  no_hops_left : Option Url → Io Response
  no_hops_left none = throw (message "fetch: redirect without a location")
  no_hops_left (some u) = throw (message "fetch: too many redirects")

  follow : Bytes → (Bytes → Io Response) → Option Url → Io Response
  follow s next none = throw (message "fetch: redirect without a location")
  follow s next (some u) =
      if s =b codes "https" && not (u.scheme =b codes "https")
      then throw (message "fetch: refusing redirect")
      else next u.text

  settle_response : (Option Url → Io Response) → Response → Io Response
  settle_response redirect r = if is_redirect r.status then redirect r.location else pure r

  -- The loop of `get`, from the number of redirects that it still follows.
  get_within : ℕ → Bytes → Io Response
  get_within zero url = do x ← requested url (scheme_of url); settle_response no_hops_left x.1
  get_within (suc n) url = do
    x ← requested url (scheme_of url)
    settle_response (follow x.0 (get_within n)) x.1

  -- maxRedirects is 5.
  unfoldable pub get : Bytes → Io Response
  unfolding get_within settle_response follow no_hops_left requested answered
  get url = get_within 5 url

  -- io.Copy: what came in before the transfer broke off has been written.
  copied : FilePath → Response → Io (Unit {0})
  copied tmp r = write tmp r.body >> (if r.complete then pure tt else throw errno)

  close_and_drop : FilePath → Io (Unit {0})
  close_and_drop tmp = ignore settle >> ignore (remove tmp)

  unfoldable pub fetch_to : Bytes → FilePath → Io ℕ
  unfolding copied close_and_drop
  fetch_to url dest = do
    r ← get url
    if r.status == 200 then pure tt else throw (message "fetch: status")
    create (suffixed dest (codes ".tmp"))
    on_error (copied (suffixed dest (codes ".tmp")) r)
        (close_and_drop (suffixed dest (codes ".tmp")))
    on_error settle (close_and_drop (suffixed dest (codes ".tmp")))
    ignore settle
    on_error (rename (suffixed dest (codes ".tmp")) dest)
        (ignore (remove (suffixed dest (codes ".tmp"))))
    sync_dir
    pure (length r.body)
