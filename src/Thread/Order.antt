-- ===== src/Thread/Order.antt =====
-- The numbers of a thread's messages.
use recova.Prelude.{
  ℕ, suc, zero, max, ◌+◌, ◌≡◌, refl, sym, ap, ◌∙◌, true, false, Option, List, [], ◌∷◌, ◌++◌, arith,
  ◌⊎◌, ◌==◌, if◌then◌else◌, Bool-cases, inl, inr, length, length-append, same→≡, append-nil,
}
use recova.Constants.{ArtifactStatus}
use recova.Thread.{Direction, Sender, Body, ThreadRow, next_seq, new_message, add_message}

-- The numbers of the messages of a case, in the order in which they were written.
unfoldable pub seqs_of : ℕ → List ThreadRow → List ℕ
seqs_of key [] = []
seqs_of key (m ∷ rest) =
    let later = seqs_of key rest in if m.transaction_id == key then m.seq ∷ later else later

-- `n`, and the numbers that follow it.
unfoldable pub run_from : ℕ → ℕ → List ℕ
run_from n zero = []
run_from n (suc k) = n ∷ run_from (suc n) k

-- Every case numbers its messages 0, 1, 2 and so on, without a gap.
pub record IsNumbered (messages : List ThreadRow) : Type 0 where
  pub dense : (key : ℕ) → seqs_of key messages ≡ run_from 0 (length (seqs_of key messages))

-- One more than the highest number.
unfoldable above : List ℕ → ℕ
above [] = 0
above (n ∷ rest) = max (suc n) (above rest)

next_seq-above : (key : ℕ) (ms : List ThreadRow) → next_seq key ms ≡ above (seqs_of key ms)
unfolding next_seq above seqs_of
next_seq-above key [] = refl
next_seq-above key (m ∷ rest) = ground (arith, next_seq-above key rest)

above-run_from : (n k : ℕ) → above (run_from n (suc k)) ≡ n + suc k
unfolding above run_from
above-run_from n zero = omega arith
above-run_from n (suc k) = omega (arith, above-run_from (suc n) k)

above-dense : (k : ℕ) → above (run_from 0 k) ≡ k
unfolding above run_from
above-dense zero = refl
above-dense (suc k) = above-run_from 0 k ∙ omega arith

run_from-snoc : (n k : ℕ) → run_from n k ++ (n + k) ∷ [] ≡ run_from n (suc k)
unfolding run_from
run_from-snoc n zero = ap (λ i. i ∷ []) (omega arith)
run_from-snoc n (suc k) =
    ap (λ t. n ∷ t) (ap (λ i. run_from (suc n) k ++ i ∷ []) (omega arith) ∙ run_from-snoc (suc n) k)

-- The row that `add_message` writes, on the number that it takes.
seqs_of-append :
    (key : ℕ) (ms ns : List ThreadRow) → seqs_of key (ms ++ ns) ≡ seqs_of key ms ++ seqs_of key ns
unfolding seqs_of
seqs_of-append key [] ns = refl
seqs_of-append key (m ∷ ms) ns = ground (arith, seqs_of-append key ms ns)

next_seq-dense :
    (key : ℕ) (ms : List ThreadRow) → IsNumbered ms → next_seq key ms ≡ length (seqs_of key ms)
next_seq-dense key ms h =
    next_seq-above key ms ∙ ap above (h.dense key) ∙ above-dense (length (seqs_of key ms))

dense_after :
    (seqs : List ℕ) (n : ℕ)
    → seqs ≡ run_from 0 (length seqs)
    → n ≡ length seqs
    → seqs ++ n ∷ [] ≡ run_from 0 (length (seqs ++ n ∷ []))
dense_after seqs n h e =
    ap (λ t. t ++ n ∷ []) h
    ∙ ap (λ i. run_from 0 (length seqs) ++ i ∷ []) (e ∙ omega arith)
    ∙ run_from-snoc 0 (length seqs)
    ∙ ap (run_from 0) (sym (length-append seqs (n ∷ []) ∙ omega arith))

-- If every case numbers its messages without a gap, it still does after a message is added.
pub add_message-IsNumbered :
    (key : ℕ) (direction : Direction) (sender : Sender) (body : Body)
    (artifact : Option (ℕ × ArtifactStatus)) (ms : List ThreadRow)
    → IsNumbered ms
    → IsNumbered (add_message key direction sender body artifact ms)
unfolding add_message new_message seqs_of
add_message-IsNumbered key direction sender body artifact ms h = record { dense = dense_at }
  where
    row : ThreadRow
    row = record {
      transaction_id = key;
      direction = direction;
      sender = sender;
      body = body;
      seq = next_seq key ms;
      artifact = artifact;
    }

    dense_at :
        (j : ℕ) → seqs_of j (ms ++ row ∷ []) ≡ run_from 0 (length (seqs_of j (ms ++ row ∷ [])))
    dense_at j = rw (seqs_of-append j ms (row ∷ [])) (by_case (Bool-cases (key == j)))
      where
        by_case :
            (key == j ≡ true) ⊎ (key == j ≡ false)
            → seqs_of j ms ++ seqs_of j (row ∷ [])
              ≡ run_from 0 (length (seqs_of j ms ++ seqs_of j (row ∷ [])))
        by_case (inl same) = rw same (
            dense_after (seqs_of j ms) (next_seq key ms) (h.dense j)
              (next_seq-dense key ms h ∙ ap (λ i. length (seqs_of i ms)) (same→≡ key j same)))
        by_case (inr other) = rw other (rw (append-nil (seqs_of j ms)) (h.dense j))
