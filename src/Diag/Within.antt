-- ===== src/Diag/Within.antt =====
-- CompactWithin ends, with the longest tail that fits.
use atom_loops.Prelude.{
  ℕ, zero, suc, ◌-◌, ◌∙◌, ◌*◌, ◌<◌, ◌≤◌, ◌≡◌, refl, ◌⊎◌, inl, inr, true, false, ◌||◌, some, ◌++◌,
  arith, length, leb, ◌==◌, Bool-cases,
}
use atom_loops.Prelude.Text.{Bytes}
use atom_loops.Diag.{
  Bundle, Encoders, essentials, compact, encode_qr_payload, shrink, compact_within,
}

module _ (enc : Encoders) (b : Bundle) (budget : ℕ) where
  abbrev pub size : ℕ → ℕ
  size n = length (encode_qr_payload enc (compact enc b n))

  -- The loop from the given number of lines ends with this number.
  pub record EndsWith (lines n : ℕ) (r : Bytes × Bytes × ℕ) : Type 0 where
    pub text : r.0 ≡ compact enc b n
    pub payload : r.1 ≡ encode_qr_payload enc (compact enc b n)
    pub count : r.2 ≡ n
    pub below : n ≤ lines
    pub stepped : (j : ℕ) × (n ≡ lines - 4 * j)
    pub kept : (rest : Bytes) × (r.0 ≡ essentials enc b ++ rest)
    pub fits : (size n ≤ budget) ⊎ (n ≡ 0)
    pub longest : (k : ℕ) → n < lines - 4 * k → budget < size (lines - 4 * k)

  stop_lem :
      (lines : ℕ)
      → leb (size lines) budget || lines == 0 ≡ true
      → (size lines ≤ budget) ⊎ (lines ≡ 0)
  stop_lem lines h = elim (Bool-cases (leb (size lines) budget)) [
    | inl e ↦ inl (ground arith)
    | inr e ↦ inr (ground arith)
  ]

  goes_on_lem :
      (lines : ℕ)
      → leb (size lines) budget || lines == 0 ≡ false
      → (budget < size lines) × (0 < lines)
  goes_on_lem lines h = ground arith

  -- What the loop returns from that number of lines on.
  abbrev Ends : ℕ → ℕ → Type 0
  Ends fuel lines =
      (r : Bytes × Bytes × ℕ) × (n : ℕ) × (shrink enc fuel lines b budget ≡ some r)
      × EndsWith lines n r

  kept_lem : (n : ℕ) → (rest : Bytes) × (compact enc b n ≡ essentials enc b ++ rest)
  unfolding compact
  kept_lem n = (_, refl)

  shrunk_lem :
      (fuel lines : ℕ)
      → leb (size lines) budget || lines == 0 ≡ false
      → shrink enc (suc fuel) lines b budget ≡ shrink enc fuel (lines - 4) b budget
  unfolding shrink
  shrunk_lem fuel lines e = rw e

  stopped_lem :
      (fuel lines : ℕ) → leb (size lines) budget || lines == 0 ≡ true → Ends (suc fuel) lines
  unfolding shrink
  stopped_lem fuel lines e = (
    (compact enc b lines, encode_qr_payload enc (compact enc b lines), lines),
    lines,
    rw e,
    record {
      text = refl;
      payload = refl;
      count = refl;
      below = omega arith;
      stepped = (0, omega arith);
      kept = kept_lem lines;
      fits = stop_lem lines e;
      longest = λ k l. absurd (omega arith);
    },
  )

  longest_lem :
      (lines n : ℕ)
      → budget < size lines
      → ((k : ℕ) → n < lines - 4 - 4 * k → budget < size (lines - 4 - 4 * k))
      → (k : ℕ) → n < lines - 4 * k
      → budget < size (lines - 4 * k)
  longest_lem lines n h ih zero l = let e : lines - 4 * 0 ≡ lines = omega arith in rw e h
  longest_lem lines n h ih (suc k) l =
      let e : lines - 4 * suc k ≡ lines - 4 - 4 * k = omega arith in rw e (ih k (omega arith))

  shrink_lem : (fuel lines : ℕ) → lines ≤ 4 * fuel → Ends (suc fuel) lines
  shrink_lem zero lines h = stopped_lem zero lines (let e : lines ≡ 0 = omega arith in ground arith)
  shrink_lem (suc f) lines h = elim (Bool-cases (leb (size lines) budget || lines == 0)) [
    | inl e ↦ stopped_lem (suc f) lines e
    | inr e ↦
        let (r, n, s, d) = shrink_lem f (lines - 4) (omega arith) in
        (
          r,
          n,
          shrunk_lem (suc f) lines e ∙ s,
          record {
            text = d.text;
            payload = d.payload;
            count = d.count;
            below = omega (arith, d.below);
            stepped = (suc d.stepped.0, omega (arith, d.stepped.1));
            kept = d.kept;
            fits = d.fits;
            longest = longest_lem lines n (goes_on_lem lines e).0 d.longest;
          },
        )
  ]

  -- CompactWithin returns, for each budget that is not negative and each bundle: the report with its payload and a number
  -- n of dmesg lines among 40, 36, ..., 0; the payload fits the budget, or n is 0; with more lines of those
  -- numbers it would not fit; and the report starts with all its fields but the lines of dmesg.
  pub compact_within-ends :
      (r : Bytes × Bytes × ℕ) × (n : ℕ) × (compact_within enc b budget ≡ some r) × EndsWith 40 n r
  unfolding compact_within
  compact_within-ends = shrink_lem 10 40 (omega arith)
