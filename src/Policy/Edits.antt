-- ===== src/Policy/Edits.antt =====
-- What an operator's edits and the start-up backfill keep of the stored policy.
use text.Mathlib.TextEquality.{eq_iff}
use recova.Prelude.{
  ◌≤◌, ◌≡◌, refl, String, Bool, true, ◌||◌, not, Option, none, some, List, [], ◌∷◌, ◌++◌, all,
  any-append, arith, or_else, subst, sym, keep, ◌∙◌, Bool-cases, inl, inr, ap,
}
use recova.Prelude.Int.{ℤ, pos, ltb_ℤ}
use recova.Prelude.Outcome.{Run, Result, ok, err, Error, ◌>>◌}
use recova.Constants.{contains, same_string}
use recova.Policy.Store.{
  PolicyRow, PolicyTable, PolicyPatch, all_actions, all_channels, row_of, sandbox_of, sandbox_for,
  missing_actions, backfill_default_actions, edit_discount, edit_amount, edit_partial, edit_minimum,
  edit_actions, edit_channels, edit_row, PolicySession, committed, update_policy, percent_in_range,
  backfill_actions,
}

-- The percentages are percentages, and only actions and channels that the engine knows are listed.
pub record IsSound (row : PolicyRow) : Type 0 where
  pub discount : row.max_discount_pct ≤ 100
  pub minimum : or_else row.min_partial_payment_pct 50 ≤ 100
  pub actions : all (λ a. contains a all_actions) row.allowed_actions ≡ true
  pub channels : all (λ c. contains c all_channels) row.allowed_channels ≡ true

-- A step that leaves a sound row, also where it raises.
record Keeps (m : Run PolicyRow (Unit {0})) : Type 0 where
  at : (row : PolicyRow) → IsSound row → IsSound (m row).1

Keeps-bind : (m k : Run PolicyRow (Unit {0})) → Keeps m → Keeps k → Keeps (m >> k)
Keeps-bind m k hm hk = record { at = λ row h. after (m row).0 (m row).1 (hm.at row h) }
  where
    after :
        (r : Result (Unit {0})) (row : PolicyRow)
        → IsSound row
        → IsSound
            (elim r as (λ _. Result (Unit {0}) × PolicyRow) [
              | ok a ↦ k row
              | err e ↦ (err e, row)
            ]).1
    after (ok a) row h = hk.at row h
    after (err e) row h = h

discount-Keeps : (o : Option ℤ) → Keeps (edit_discount o)
discount-Keeps none = record { at = λ row h. h }
discount-Keeps (some v) = record {
  at = λ row h. elim (Bool-cases (percent_in_range v)) [
    | inl fits ↦ rw fits (record {
      discount = ground arith;
      minimum = h.minimum;
      actions = h.actions;
      channels = h.channels;
    })
    | inr outside ↦ rw outside h
  ];
}

amount-Keeps : (o : Option ℤ) → Keeps (edit_amount o)
amount-Keeps none = record { at = λ row h. h }
amount-Keeps (some v) = record {
  at = λ row h. elim (Bool-cases (ltb_ℤ v (pos 0))) [
    | inl negative ↦ rw negative h
    | inr fits ↦ rw fits (record {
      discount = h.discount;
      minimum = h.minimum;
      actions = h.actions;
      channels = h.channels;
    })
  ];
}

partial-Keeps : (o : Option Bool) → Keeps (edit_partial o)
partial-Keeps none = record { at = λ row h. h }
partial-Keeps (some v) = record {
  at = λ row h. record {
    discount = h.discount;
    minimum = h.minimum;
    actions = h.actions;
    channels = h.channels;
  };
}

minimum-Keeps : (o : Option ℤ) → Keeps (edit_minimum o)
minimum-Keeps none = record { at = λ row h. h }
minimum-Keeps (some v) = record {
  at = λ row h. elim (Bool-cases (percent_in_range v)) [
    | inl fits ↦ rw fits (record {
      discount = h.discount;
      minimum = ground arith;
      actions = h.actions;
      channels = h.channels;
    })
    | inr outside ↦ rw outside h
  ];
}

actions-Keeps : (o : Option (List String)) → Keeps (edit_actions o)
actions-Keeps none = record { at = λ row h. h }
actions-Keeps (some v) = record {
  at = λ row h. elim (Bool-cases (all (λ a. contains a all_actions) v)) [
    | inl known ↦ rw known (record {
      discount = h.discount;
      minimum = h.minimum;
      actions = known;
      channels = h.channels;
    })
    | inr unknown ↦ rw unknown h
  ];
}

channels-Keeps : (o : Option (List String)) → Keeps (edit_channels o)
channels-Keeps none = record { at = λ row h. h }
channels-Keeps (some v) = record {
  at = λ row h. elim (Bool-cases (all (λ c. contains c all_channels) v)) [
    | inl known ↦ rw known (record {
      discount = h.discount;
      minimum = h.minimum;
      actions = h.actions;
      channels = known;
    })
    | inr unknown ↦ rw unknown h
  ];
}

edit_row-Keeps : (patch : PolicyPatch) → Keeps (edit_row patch)
unfolding edit_row
edit_row-Keeps patch =
    search
      (
        Keeps-bind, discount-Keeps, amount-Keeps, partial-Keeps, minimum-Keeps, actions-Keeps,
        channels-Keeps,
      )
      depth 15

-- What an edit leaves: a sound row object; and what it returns, if it does, is what it stores.
record IsEdited (before : PolicyTable) (r : Result PolicyRow × PolicySession) : Type 0 where
  row : IsSound r.1.row
  stored : (new : PolicyRow) → r.0 ≡ ok new → (r.1.row ≡ new) × (r.1.table ≡ some new)
  kept : (e : Error) → r.0 ≡ err e → r.1.table ≡ before

committed-IsEdited :
    (before : PolicyTable) (r : Result (Unit {0})) (row : PolicyRow)
    → IsSound row
    → IsEdited before (committed before (r, row))
committed-IsEdited before (ok u) row h = record {
  row = h;
  stored = λ new e. (cc, cc);
  kept = λ e raised. cc;
}
committed-IsEdited before (err x) row h = record {
  row = h;
  stored = λ new e. cc;
  kept = λ e raised. refl;
}

update_policy-IsEdited :
    (patch : PolicyPatch) (table : PolicyTable)
    → IsSound (row_of table)
    → IsEdited (some (row_of table)) (update_policy patch table)
unfolding update_policy
update_policy-IsEdited patch table h =
    let row = row_of table in
    committed-IsEdited (some row) (edit_row patch row).0 (edit_row patch row).1
      ((edit_row-Keeps patch).at row h)

-- From a sound policy, every edit that succeeds returns a sound policy and stores exactly what it
-- returns.
pub update_policy-IsSound :
    (patch : PolicyPatch) (table : PolicyTable)
    → IsSound (row_of table)
    → (new : PolicyRow) → (update_policy patch table).0 ≡ ok new
    → IsSound new × ((update_policy patch table).1.table ≡ some new)
update_policy-IsSound patch table h new e =
    let edited = update_policy-IsEdited patch table h in
    (subst IsSound (edited.stored new e).0 edited.row, (edited.stored new e).1)

row_of-filled : (table : PolicyTable) → row_of (some (row_of table)) ≡ row_of table
unfolding row_of
row_of-filled none = refl
row_of-filled (some row) = refl

-- From a sound policy, an edit that is refused commits none of its fields, so that the sandbox of
-- the table is the one of before, and the row that it leaves edited in the session, up to the
-- refused field, is still sound.
pub update_policy-refused :
    (patch : PolicyPatch) (table : PolicyTable) (e : Error)
    → IsSound (row_of table)
    → (update_policy patch table).0 ≡ err e
    → (sandbox_for (update_policy patch table).1.table ≡ sandbox_for table)
      × IsSound (update_policy patch table).1.row
unfolding sandbox_for
update_policy-refused patch table e h refused =
    let edited = update_policy-IsEdited patch table h in
    (
      ap (λ (t : PolicyTable). sandbox_of (row_of t)) (edited.kept e refused)
          ∙ ap sandbox_of (row_of-filled table),
      edited.row,
    )

contains-append :
    (a : String) (xs ys : List String) → contains a (xs ++ ys) ≡ (contains a xs || contains a ys)
contains-append a xs ys = any-append (same_string a) xs ys

-- Adding the missing ones of `ys` lists them all.
keep-missing :
    (a : String) (xs ys : List String)
    → (contains a xs || contains a (keep (λ y. not (contains y xs)) ys))
      ≡ (contains a xs || contains a ys)
keep-missing a xs [] = refl
keep-missing a xs (y ∷ ys) = elim (Bool-cases (contains y xs)) [
  | inl listed ↦ elim (Bool-cases (same_string a y)) [
    | inl same ↦
        let here : contains a xs ≡ true =
          subst (λ (z : String). contains z xs ≡ true) (sym ((eq_iff a y).0 same)) listed in
        rw here
    | inr other ↦ rw (listed, other) (keep-missing a xs ys)
  ]
  | inr missing ↦ rw missing (ground (arith, keep-missing a xs ys))
]

-- After the backfill the permitted actions are those of before together with the two backfilled
-- ones.
backfill_default_actions-union :
    (table : PolicyTable) (a : String)
    → contains a (sandbox_for (backfill_default_actions table).1).allowed_actions
      ≡ (contains a (sandbox_for table).allowed_actions || contains a backfill_actions)
unfolding backfill_default_actions sandbox_for
backfill_default_actions-union table a =
    let current = (row_of table).allowed_actions in
    contains-append a current (missing_actions current)
    ∙ (unfold missing_actions in keep-missing a current backfill_actions)
