-- ===== src/Limiter/Cap.antt =====
-- The cap is exact.
use recova.Prelude.{
  ℕ, zero, suc, ◌+◌, ◌-◌, min, ◌≡◌, refl, ap, sym, subst, ◌∙◌, true, none, some, List, [], ◌∷◌,
  ◌++◌, arith, ltb, or_else, count_of, count_of-append, Bool-cases, inl, inr, if◌then◌else◌,
}
use recova.Limiter.{
  Usage, RateLimitResult, is_day, is_below, count_on, with_day, increment, check_and_increment,
  allowed_among,
}

-- The day has one row, with that count.
pub record Holds (today count : ℕ) (rows : List Usage) : Type 0 where
  pub unique : count_of (is_day today) rows ≡ 1
  pub stored : count_on today rows ≡ some count

module _ (today limit : ℕ) where
  absent-unmatched :
      (rows : List Usage)
      → count_of (is_day today) rows ≡ 0
      → count_of (is_below today limit) rows ≡ 0
  absent-unmatched [] h = refl
  absent-unmatched (u ∷ rest) h = ground (arith, absent-unmatched rest)

  abbrev next_count : ℕ → ℕ
  next_count c = if ltb c limit then suc c else c

  count_of-increment :
      (rows : List Usage)
      → count_of (is_day today) (increment today limit rows) ≡ count_of (is_day today) rows
  unfolding increment
  count_of-increment [] = refl
  count_of-increment (u ∷ rest) = ground (arith, count_of-increment rest)

  count_on-increment :
      (c : ℕ) (rows : List Usage)
      → count_on today rows ≡ some c
      → count_on today (increment today limit rows) ≡ some (next_count c)
  unfolding increment count_on
  count_on-increment c [] h = ground arith
  count_on-increment c (u ∷ rest) h = ground (arith, count_on-increment c rest)

  matched :
      (c : ℕ) (rows : List Usage)
      → count_of (is_day today) rows ≡ 1
      → count_on today rows ≡ some c
      → count_of (is_below today limit) rows ≡ (if ltb c limit then 1 else 0)
  unfolding count_on
  matched c [] one stored = ground arith
  matched c (u ∷ rest) one stored = elim (Bool-cases (is_day today u)) [
    | inl same ↦ ground (arith, absent-unmatched rest)
    | inr other ↦ ground (arith, matched c rest)
  ]

  absent-count_on :
      (rows : List Usage) → count_on today rows ≡ none → count_of (is_day today) rows ≡ 0
  unfolding count_on
  absent-count_on [] h = refl
  absent-count_on (u ∷ rest) h = ground (arith, absent-count_on rest)

  count_on-snoc :
      (rows : List Usage) (u : Usage)
      → count_on today rows ≡ none
      → is_day today u ≡ true
      → count_on today (rows ++ u ∷ []) ≡ some u.request_count
  unfolding count_on
  count_on-snoc [] u h e = rw e refl
  count_on-snoc (v ∷ rest) u h e = ground (arith, count_on-snoc rest u)

  with_day-new :
      (table : List Usage) → count_on today table ≡ none → Holds today 0 (with_day today table)
  unfolding with_day
  with_day-new table h = rw h (record {
    unique = count_of-append (is_day today) table _ ∙ rw (absent-count_on table h) (ground arith);
    stored = count_on-snoc table _ h (ground arith);
  })

  with_day-old : (c : ℕ) (table : List Usage) → Holds today c table → with_day today table ≡ table
  unfolding with_day
  with_day-old c table h = rw (h.stored) refl

  -- The check, on a table in which the day has its row.
  record IsChecked (c : ℕ) (r : RateLimitResult × List Usage) : Type 0 where
    allowed : r.0.allowed ≡ ltb c limit
    count : r.0.count ≡ next_count c
    table : Holds today (next_count c) r.1

  counted-IsChecked :
      (c : ℕ) (table : List Usage)
      → Holds today c (with_day today table)
      → IsChecked c (check_and_increment today limit table)
  unfolding check_and_increment
  counted-IsChecked c table h = record {
    allowed = rw (matched c _ h.unique h.stored) (ground arith);
    count = rw (count_on-increment c _ h.stored) refl;
    table = record {
      unique = count_of-increment _ ∙ h.unique;
      stored = count_on-increment c _ h.stored;
    };
  }

  -- A run of checks from a count on.
  record IsRun (n c : ℕ) (r : ℕ × List Usage) : Type 0 where
    allowed : r.0 ≡ min n (limit - c)
    table : Holds today (c + min n (limit - c)) r.1

  spent :
      (n c : ℕ)
      → (if ltb c limit then suc (min n (limit - next_count c)) else min n (limit - next_count c))
        ≡ min (suc n) (limit - c)
  spent n c = ground arith

  reached : (n c : ℕ) → next_count c + min n (limit - next_count c) ≡ c + min (suc n) (limit - c)
  reached n c = ground arith

  step-IsRun :
      (n c : ℕ) (table : List Usage)
      → IsChecked c (check_and_increment today limit table)
      → IsRun n
          (next_count c)
          (allowed_among today limit n (check_and_increment today limit table).1)
      → IsRun (suc n) c (allowed_among today limit (suc n) table)
  unfolding allowed_among
  step-IsRun n c table k ih = record {
    allowed = rw (k.allowed, ih.allowed) (spent n c);
    table =
        subst
          (λ m.
            Holds today m (allowed_among today limit n (check_and_increment today limit table).1).1)
          (reached n c) ih.table;
  }

  held-IsRun :
      (n c : ℕ) (table : List Usage)
      → Holds today c table
      → IsRun n c (allowed_among today limit n table)
  unfolding allowed_among
  held-IsRun zero c table h = record {
    allowed = omega arith;
    table = subst (λ m. Holds today m table) (omega arith) h;
  }
  held-IsRun (suc n) c table h =
      step-IsRun n c table checked (held-IsRun n (next_count c) _ checked.table)
    where
      checked : IsChecked c (check_and_increment today limit table)
      checked = counted-IsChecked c table (subst (Holds today c) (sym (with_day-old c table h)) h)

  new-IsRun :
      (n : ℕ) (table : List Usage)
      → count_on today table ≡ none
      → IsRun (suc n) 0 (allowed_among today limit (suc n) table)
  new-IsRun n table h = step-IsRun n 0 table checked (held-IsRun n (next_count 0) _ checked.table)
    where
      checked : IsChecked 0 (check_and_increment today limit table)
      checked = counted-IsChecked 0 table (with_day-new table h)

-- On a day that has no row yet, of any number of checks in a row exactly as many are allowed as the
-- limit admits, and that number is the stored count.
pub allowed_among-cap :
    (today limit n : ℕ) (table : List Usage)
    → count_on today table ≡ none
    → ((allowed_among today limit n table).0 ≡ min n limit)
      × (or_else (count_on today (allowed_among today limit n table).1) 0 ≡ min n limit)
unfolding allowed_among
allowed_among-cap today limit zero table h = (omega arith, rw h (omega arith))
allowed_among-cap today limit (suc n) table h =
    (run.allowed ∙ omega arith, ap (λ o. or_else o 0) run.table.stored ∙ omega arith)
  where
    run : IsRun today limit (suc n) 0 (allowed_among today limit (suc n) table)
    run = new-IsRun today limit n table h
