-- ===== src/Crank/Refunds/Chunks.antt =====
-- The survey of the participants in chunks of 50, on a chain that does not change meanwhile
-- (`cleanupParticipantPdas`, crank/src/index.ts).
use winny.Base.{
  ℕ, zero, suc, ◌≤◌, ◌≡◌, refl, sym, subst, Option, List, [], ◌∷◌, ◌++◌, map, length, take, drop,
  arith,
}
use mathlib.Core.List.{append_assoc, append-nil}
use winny.Bytes.{Buffer}
use winny.Text.{JsString}
use winny.Crank.{World, Crank, Answer, answer, failure, Event, from_answer}
use winny.Crank.Cleanup.{
  Survey, chunk_size, survey_accounts, survey_chunks, get_participant_accounts,
}
use winny.Crank.Hoare.{Post, Triple, Triple-pure, Triple-bind}
use winny.Crank.Refunds.Survey.{Surveyed, survey_accounts-Surveyed}

take-drop : {A : Type 0} (n : ℕ) (xs : List A) → take n xs ++ drop n xs ≡ xs
take-drop zero xs = refl
take-drop (suc n) [] = refl
take-drop (suc n) (x ∷ xs) = rw (take-drop n xs) refl

length-drop_le : {A : Type 0} (n : ℕ) (xs : List A) → length (drop n xs) ≤ length xs
length-drop_le zero xs = omega arith
length-drop_le (suc n) [] = omega arith
length-drop_le (suc n) (x ∷ xs) = omega (arith, length-drop_le n xs)

-- Some read of the round's participants is answered by an error.
abbrev pub ReadFailed : {Key : Type 0} → World Key → ℕ → Type 0
ReadFailed {Key} w i =
    (calls : ℕ) × (users : List Key) × (message : JsString) × (w.participant_accounts calls i users
      ≡ failure message)

module _ {Key : Type 0} (w : World Key) (i : ℕ) (chain : Key → Option Buffer)
    (reads : (calls : ℕ) (users : List Key) (infos : List (Option Buffer))
      → w.participant_accounts calls i users ≡ answer infos
      → infos ≡ map chain users)
    (before : List (Event Key)) where
  abbrev pub Unchanged : Crank Key → Type 0
  Unchanged s = s.events ≡ before

  get_participant_accounts-reads :
      (users : List Key)
      → Triple Unchanged
          (get_participant_accounts w i users)
          (λ infos s. (infos ≡ map chain users) × Unchanged s)
          (λ s. ReadFailed w i)
  unfolding get_participant_accounts
  get_participant_accounts-reads users = record {
    at = λ s h.
        go (w.participant_accounts s.calls i users) s h (reads s.calls users)
          (λ message e. (s.calls, users, message, e));
  }
    where
      go :
          (r : Answer (List (Option Buffer))) (s : Crank Key)
          → Unchanged s
          → ((infos : List (Option Buffer)) → r ≡ answer infos → infos ≡ map chain users)
          → ((message : JsString) → r ≡ failure message → ReadFailed w i)
          → Post
              (λ infos s'. (infos ≡ map chain users) × Unchanged s')
              (λ s'. ReadFailed w i)
              (from_answer r s)
      go (answer infos) s h read failed = (read infos refl, h)
      go (failure message) s h read failed = failed message refl

  pub survey_chunks-Surveyed :
      (fuel status : ℕ) (done users : List Key) (v : Survey Key)
      → length users ≤ fuel
      → Surveyed w.public_key status chain done v
      → Triple Unchanged
          (survey_chunks w fuel i status users v)
          (λ v' s. Surveyed w.public_key status chain (done ++ users) v' × Unchanged s)
          (λ s. ReadFailed w i)
  unfolding survey_chunks
  survey_chunks-Surveyed zero status done [] v enough h = Triple-pure v (λ s same.
      (subst (λ us. Surveyed w.public_key status chain us v) (sym (append-nil done)) h, same))
  survey_chunks-Surveyed (suc fuel) status done [] v enough h = Triple-pure v (λ s same.
      (subst (λ us. Surveyed w.public_key status chain us v) (sym (append-nil done)) h, same))
  survey_chunks-Surveyed zero status done (user ∷ users) v enough h = absurd (omega arith)
  survey_chunks-Surveyed (suc fuel) status done (user ∷ users) v enough h =
      Triple-bind _ _ (get_participant_accounts-reads (take chunk_size (user ∷ users))) (λ infos.
        record {
          at = λ s (read, same). go infos read s same (λ v' h'.
              survey_chunks-Surveyed fuel status (done ++ chunk) rest v'
                (omega (arith, enough, length-drop_le 49 users)) h');
        })
    where
      chunk : List Key
      chunk = take chunk_size (user ∷ users)

      rest : List Key
      rest = drop chunk_size (user ∷ users)

      parts : (done ++ chunk) ++ rest ≡ done ++ (user ∷ users)
      parts = rw (append_assoc done chunk rest) (rw (take-drop chunk_size (user ∷ users)) refl)

      go :
          (infos : List (Option Buffer))
          → infos ≡ map chain chunk
          → (s : Crank Key) → Unchanged s
          → ((v' : Survey Key)
              → Surveyed w.public_key status chain (done ++ chunk) v'
              → Triple Unchanged
                  (survey_chunks w fuel i status rest v')
                  (λ v'' s'.
                    Surveyed w.public_key status chain ((done ++ chunk) ++ rest) v'' × Unchanged s')
                  (λ s'. ReadFailed w i))
          → Post
              (λ v' s'.
                Surveyed w.public_key status chain (done ++ (user ∷ users)) v' × Unchanged s')
              (λ s'. ReadFailed w i)
              (survey_chunks w fuel i status rest
                (survey_accounts w.public_key status chunk infos v)
                s)
      go infos read s same later =
          subst
            (λ us.
              Post (λ v' s'. Surveyed w.public_key status chain us v' × Unchanged s')
                (λ s'. ReadFailed w i)
                (survey_chunks w fuel i status rest
                  (survey_accounts w.public_key status chunk infos v) s))
            parts
            ((later _ (
                subst
                  (λ is.
                    Surveyed w.public_key status chain (done ++ chunk)
                      (survey_accounts w.public_key status chunk is v))
                  (sym read)
                  (survey_accounts-Surveyed w.public_key status chain done chunk v h))).at
              s same)
