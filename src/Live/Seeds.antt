-- ===== src/Live/Seeds.antt =====
-- The history that an authored case's counters stand for: what is seeded is what the counts read.
use recova.Prelude.{
  ℕ, zero, suc, ◌+◌, min, ◌≡◌, refl, ◌∙◌, true, none, arith, count_of-append, ◌==◌,
}
use recova.Prelude.Outcome.{Run, Result, ok, err, pure, ◌>>=◌}
use recova.Constants.{Action, Channel}
use recova.Database.{record_audit, voice_attempt_count, whatsapp_nudge_count}
use recova.Thread.{Direction, Sender, Body}
use recova.Live.{Stage, Theatre, on_db, on_store, write_message}
use recova.Live.Cycle.{
  seeded_audit, seed_nudges, add_seeded_call, seed_calls, seed_prior_interventions,
}

module _ (θ : Theatre) where
  abbrev pub nudges : Stage → ℕ
  nudges s = whatsapp_nudge_count s.store.db.audits θ.transaction_id none

  abbrev pub attempts : Stage → ℕ
  attempts s = voice_attempt_count s.store.db.audits θ.transaction_id none

  -- A call that returns, and after which the two counts have grown by that much.
  abbrev pub Counted : ℕ → ℕ → Stage → {A : Type 0} → Result A × Stage → Type 0
  Counted w v before (ok a, s) = (nudges s ≡ nudges before + w) × (attempts s ≡ attempts before + v)
  Counted w v before (err e, s) = ⊥

  record Counts (w v : ℕ) {A : Type 0} (m : Run Stage A) : Type 0 where
    at : (s : Stage) → Counted w v s (m s)

  Counts-pure : {A : Type 0} (a : A) → Counts 0 0 (pure a)
  Counts-pure a = record { at = λ s. (omega arith, omega arith) }

  Counts-bind :
      {A B : Type 0} (w v w' v' x y : ℕ) (m : Run Stage A) (f : A → Run Stage B)
      → w + w' ≡ x
      → v + v' ≡ y
      → Counts w v m
      → ((a : A) → Counts w' v' (f a))
      → Counts x y (m >>= f)
  Counts-bind {A} {B} w v w' v' x y m f e e' hm hf = record {
    at = λ s. after s (m s).0 (m s).1 (hm.at s);
  }
    where
      more :
          (s s' : Stage) (r : Result B × Stage)
          → nudges s' ≡ nudges s + w
          → attempts s' ≡ attempts s + v
          → Counted w' v' s' r
          → Counted x y s r
      more s s' (ok b, u) g h (i, j) = (omega arith, omega arith)
      more s s' (err z, u) g h i = i

      after :
          (s : Stage) (r : Result A) (s' : Stage)
          → Counted w v s (r, s')
          → Counted x y s
              (elim r as (λ _. Result B × Stage) [ ok a ↦ f a s' | err z ↦ (err z, s') ])
      after s (ok a) s' (g, h) = more s s' (f a s') g h ((hf a).at s')
      after s (err z) s' g = g

  Counts-written :
      (body : Body)
      → Counts 0 0 (on_store (write_message θ Direction.outbound Sender.agent body none))
  unfolding on_store write_message
  Counts-written body = record { at = λ s. (omega arith, omega arith) }

  Counts-add_seeded_call : Counts 0 0 (add_seeded_call θ)
  unfolding add_seeded_call
  Counts-add_seeded_call = record { at = λ s. (omega arith, omega arith) }

  own_key : θ.transaction_id == θ.transaction_id ≡ true
  own_key = ground arith

  Counts-nudge :
      Counts 1 0 (on_db (record_audit (seeded_audit θ Action.send_whatsapp Channel.whatsapp)))
  unfolding on_db record_audit whatsapp_nudge_count voice_attempt_count
  Counts-nudge = record {
    at = λ s. (
      count_of-append _ s.store.db.audits _ ∙ rw own_key refl,
      count_of-append _ s.store.db.audits _ ∙ rw own_key refl,
    );
  }

  Counts-call : Counts 0 1 (on_db (record_audit (seeded_audit θ Action.voice_call Channel.voice)))
  unfolding on_db record_audit whatsapp_nudge_count voice_attempt_count
  Counts-call = record {
    at = λ s. (
      count_of-append _ s.store.db.audits _ ∙ rw own_key refl,
      count_of-append _ s.store.db.audits _ ∙ rw own_key refl,
    );
  }

  Counts-seed_nudges : (i n : ℕ) → Counts n 0 (seed_nudges θ i n)
  unfolding seed_nudges
  Counts-seed_nudges i zero = Counts-pure tt
  Counts-seed_nudges i (suc n) =
      Counts-bind 0 0 (suc n) 0 (suc n) 0 _ _ (omega arith) (omega arith) (Counts-written _) λ _.
        Counts-bind 1 0 n 0 (suc n) 0 _ _ (omega arith) (omega arith) Counts-nudge
          λ _. Counts-seed_nudges (suc i) n

  Counts-seed_calls : (n : ℕ) → Counts 0 n (seed_calls θ n)
  unfolding seed_calls
  Counts-seed_calls zero = Counts-pure tt
  Counts-seed_calls (suc n) =
      Counts-bind 0 0 0 (suc n) 0 (suc n) _ _ (omega arith) (omega arith) Counts-add_seeded_call
        λ _.
          Counts-bind 0 1 0 n 0 (suc n) _ _ (omega arith) (omega arith) Counts-call
            λ _. Counts-seed_calls n

-- Seeding the history of an authored case returns, and the nudge count and the voice count that the
-- caps read are then larger by exactly the two counters, each up to five.
pub seed-counts :
    (θ : Theatre) (whatsapp_nudges voice_attempts : ℕ) (s : Stage)
    → Counted θ
        (min whatsapp_nudges 5)
        (min voice_attempts 5)
        s
        (seed_prior_interventions θ whatsapp_nudges voice_attempts s)
unfolding seed_prior_interventions
seed-counts θ n v s =
    (Counts-bind θ (min n 5) 0 0 (min v 5) (min n 5) (min v 5) _ _ (omega arith) (omega arith)
        (Counts-seed_nudges θ 0 (min n 5)) λ _. Counts-seed_calls θ (min v 5)).at
      s
