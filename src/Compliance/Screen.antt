-- ===== src/Compliance/Screen.antt =====
-- What the keyword screen of compliance_rules.py promises about a customer's text.
use recova.Prelude.{
  ◌≡◌, refl, Bool, true, false, ◌||◌, List, [], ◌∷◌, ◌++◌, Option, some, Bool-cases, inl, inr, ◌⊎◌,
}
use recova.Prelude.Text.{Text, lower, is_in, is_in-middle, lower_idem, is_in_sound}
use recova.Constants.{StoppingRule}
use recova.Compliance.{
  Disposition, cancel_phrases, opt_out_phrases, dispute_phrases, mentions, screen_user_message,
}

-- The phrase stands in the list.
abbrev pub Listed : Text → List Text → Type 0
Listed p [] = ⊥
Listed p (q ∷ qs) = (p ≡ q) ⊎ Listed p qs

-- The text holds the phrase at some place.
abbrev pub Holds : Text → Text → Type 0
Holds phrase text = (pre : Text) × (post : Text) × (text ≡ pre ++ (phrase ++ post))

mentions_of_Listed :
    (p : Text) (ps : List Text) (s : Text) → Listed p ps → is_in p s ≡ true → mentions ps s ≡ true
unfolding mentions
mentions_of_Listed p [] s l h = absurd l
mentions_of_Listed p (q ∷ qs) s (inl e) h = rw (← e) (rw h)
mentions_of_Listed p (q ∷ qs) s (inr l) h = later (is_in q s) (mentions_of_Listed p qs s l h)
  where
    later : (b : Bool) {c : Bool} → c ≡ true → (b || c) ≡ true
    later true e = refl
    later false e = e

mentions_of_Holds :
    (p : Text) (ps : List Text) (s : Text) → Listed p ps → Holds p s → mentions ps s ≡ true
mentions_of_Holds p ps s l (pre, post, e) =
    mentions_of_Listed p ps s l (rw e (is_in-middle pre p post))

Listed-of_mentions :
    (ps : List Text) (s : Text) → mentions ps s ≡ true → (p : Text) × Listed p ps × Holds p s
unfolding mentions
Listed-of_mentions [] s h = cc
Listed-of_mentions (q ∷ qs) s h = elim (Bool-cases (is_in q s)) [
  | inl here ↦ (q, inl refl, is_in_sound q s here)
  | inr not_here ↦
      let (p, l, holds) = Listed-of_mentions qs s (rw not_here at h) in (p, inr l, holds)
]

-- A reply that holds, in any case, a cancel or opt-out phrase is screened TERMINATE.
pub screen-honours_stop :
    (text phrase : Text)
    → (Listed phrase cancel_phrases) ⊎ (Listed phrase opt_out_phrases)
    → Holds phrase (lower text)
    → (screen_user_message text).disposition ≡ Disposition.terminate
unfolding screen_user_message
screen-honours_stop text phrase (inl l) h =
    let found = mentions_of_Holds phrase cancel_phrases (lower text) l h in rw found
screen-honours_stop text phrase (inr l) h =
    let found = mentions_of_Holds phrase opt_out_phrases (lower text) l h in
    elim (Bool-cases (mentions cancel_phrases (lower text))) [
      | inl cancel ↦ rw cancel
      | inr other ↦ rw (other, found)
    ]

-- A case is frozen or ended only on a phrase that the reply holds.
abbrev pub Explains : Text → Disposition → Option StoppingRule → Type 0
Explains text d r =
    (phrase : Text) × Holds phrase (lower text)
    × ((Listed phrase cancel_phrases
          × (d ≡ Disposition.terminate)
          × (r ≡ some StoppingRule.explicit_cancel))
        ⊎ ((Listed phrase opt_out_phrases
              × (d ≡ Disposition.terminate)
              × (r ≡ some StoppingRule.opt_out))
            ⊎ (Listed phrase dispute_phrases
                × (d ≡ Disposition.escalate)
                × (r ≡ some StoppingRule.dispute_freeze))))

-- The screen lets a reply pass, or the reply holds a phrase of the list that belongs to the
-- disposition and the rule returned.
pub screen-explained :
    (text : Text)
    → ((screen_user_message text).disposition ≡ Disposition.continue)
      ⊎ Explains text (screen_user_message text).disposition (screen_user_message text).rule
unfolding screen_user_message
screen-explained text = elim (Bool-cases (mentions cancel_phrases (lower text))) [
  | inl cancel ↦
      let (p, l, h) = Listed-of_mentions cancel_phrases (lower text) cancel in
      inr (p, h, inl (l, rw cancel, rw cancel))
  | inr no_cancel ↦ elim (Bool-cases (mentions opt_out_phrases (lower text))) [
    | inl stop ↦
        let (p, l, h) = Listed-of_mentions opt_out_phrases (lower text) stop in
        inr (p, h, inr (inl (l, rw (no_cancel, stop), rw (no_cancel, stop))))
    | inr no_stop ↦ elim (Bool-cases (mentions dispute_phrases (lower text))) [
      | inl dispute ↦
          let (p, l, h) = Listed-of_mentions dispute_phrases (lower text) dispute in
          inr (
            p,
            h,
            inr (inr (l, rw (no_cancel, no_stop, dispute), rw (no_cancel, no_stop, dispute))),
          )
      | inr no_dispute ↦ inl (rw (no_cancel, no_stop, no_dispute))
    ]
  ]
]

-- Lower-casing a reply does not change its screening.
screen-lower : (text : Text) → screen_user_message (lower text) ≡ screen_user_message text
unfolding screen_user_message
screen-lower text = rw (lower_idem text)
