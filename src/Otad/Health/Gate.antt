-- ===== src/Otad/Health/Gate.antt =====
-- When the health gate lets a boot pass.
use Prim.Native.Nat.{bit_and}
use atom_loops.Prelude.{
  arith, ltb, ℕ, Option, none, some, ◌≡◌, refl, ◌↔◌, Bool, true, false, not, ◌&&◌, ◌||◌, List, [],
  ◌∷◌, all, if◌then◌else◌,
}
use atom_loops.Prelude.Text.{Bytes}
use atom_loops.Prelude.Sorting.{sort_texts, all-sort_texts}
use atom_loops.System.Io.{World, done, message, pure, throw, ◌>>=◌, ◌>>◌}
use atom_loops.Otad.Health.{
  HealthEntry, Listing, missing, unreadable, listed, Health, is_check, is_runnable, check_names,
  run_checks, run_listed, run_health_checks,
}

-- One of the three execute bits is set.
abbrev pub is_executable : Option ℕ → Bool
is_executable none = false
is_executable (some m) = ltb 0 (bit_and m 73)

-- Every executable file among the entries passes.
abbrev pub entries_pass : (Bytes → Bool) → List HealthEntry → Bool
entries_pass passes es = all (λ e. e.is_dir || not (is_executable e.mode) || passes e.name) es

abbrev pub is_healthy : Health → Bool
is_healthy h = elim h.listing [
  | missing ↦ true
  | unreadable ↦ false
  | listed es ↦ entries_pass h.passes es
]

is_check_lem : (e : HealthEntry) → is_check e ≡ not e.is_dir && is_executable e.mode
unfolding is_check is_runnable
is_check_lem e = go e.is_dir e.mode
  where
    go : (d : Bool) (m : Option ℕ) → (if d then false else is_runnable m) ≡ not d && is_executable m
    go true m = refl
    go false none = refl
    go false (some m) = ground arith

names_lem : (p : Bytes → Bool) (es : List HealthEntry) → all p (check_names es) ≡ entries_pass p es
unfolding check_names
names_lem p [] = refl
names_lem p (e ∷ es) = ground (arith, is_check_lem e, names_lem p es)

run_lem :
    (p : Bytes → Bool) (ss : List Bytes) (w : World)
    → ((run_checks p ss w).0 ≡ done tt) ↔ (all p ss ≡ true)
unfolding run_checks ◌>>=◌
run_lem p [] w = ((λ h. refl), λ h. refl)
run_lem p (s ∷ ss) w = go (p s) (run_lem p ss w)
  where
    go :
        (b : Bool)
        → ((run_checks p ss w).0 ≡ done tt) ↔ (all p ss ≡ true)
        → ((((if b then pure tt else throw (message "health check failed")) >> run_checks p ss) w).0
            ≡ done tt)
          ↔ (b && all p ss ≡ true)
    go true h = h
    go false h = ((λ h. cc), λ h. cc)

-- The health checks pass if and only if the directory is missing, or it can be read and each of its entries
-- that is an executable file, and no directory, ends with the status 0 in time.
pub run_health_checks-is_healthy :
    (h : Health) (w : World) → ((run_health_checks h w).0 ≡ done tt) ↔ (is_healthy h ≡ true)
unfolding run_health_checks run_listed
run_health_checks-is_healthy h w = go h.listing
  where
    go :
        (l : Listing)
        → ((run_listed h.passes l w).0 ≡ done tt) ↔ (
            (elim l [ missing ↦ true | unreadable ↦ false | listed es ↦ entries_pass h.passes es ])
            ≡ true)
    go missing = ((λ e. refl), λ e. refl)
    go unreadable = ((λ e. cc), λ e. cc)
    go (listed es) =
        rw (← names_lem h.passes es, ← all-sort_texts h.passes (check_names es))
          (run_lem h.passes (sort_texts (check_names es)) w)
