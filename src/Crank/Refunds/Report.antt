-- ===== src/Crank/Refunds/Report.antt =====
-- The figures that a cleanup of participants reports (`cleanupParticipantPdas`, crank/src/index.ts).
use winny.Base.{
  ℕ, zero, suc, true, ◌+◌, ◌≡◌, refl, sym, subst, Option, List, [], ◌∷◌, ◌++◌, map, length,
  length-append, take, ◌==◌, arith,
}
use mathlib.Core.List.{append_assoc, append-nil}
use winny.Bytes.{Buffer}
use winny.Accounts.Crank.{RoundData}
use winny.Crank.{
  World, Crank, answer, Event, submitted, confirmed, close_participant, answered,
  ParticipantCleanupStats, sign_and_send,
}
use winny.Crank.Cleanup.{
  Survey, no_stats, close_participants, record_stats, cleanup_participant_pdas,
}
use winny.Crank.Hoare.{
  Post, Triple, Triple-pure, Triple-modify, Triple-emit, Triple-bind, Triple-try, Triple-if,
  Triple-answer, Triple-now, Triple-weaken,
}
use winny.Crank.Refunds.{attempted, closed_by, sifted_nil, IsCount, IsReport}
use winny.Crank.Refunds.Survey.{Surveyed}
use winny.Crank.Refunds.Chunks.{ReadFailed, survey_chunks-Surveyed}

-- The figures after the closes of `done` were tried: nothing else is counted.
record Accounted {Key : Type 0} (base : ParticipantCleanupStats) (done : List Key)
    (stats : ParticipantCleanupStats) : Type 0 where
  existing : stats.existing ≡ base.existing
  closable : stats.closable ≡ base.closable
  blocked : stats.blocked_by_refund ≡ base.blocked_by_refund
  counted : stats.errors + stats.closed ≡ base.errors + length done

-- The events so far: the closes of `done` were submitted, and so many of them confirmed.
record Sent {Key : Type 0} (before : List (Event Key)) (done : List Key) (closed_count : ℕ)
    (s : Crank Key) : Type 0 where
  sent : List (Event Key)
  appended : s.events ≡ sent ++ before
  attempts : attempted sent ≡ done
  closed : closed_by sent ≡ closed_count

module _ {Key : Type 0} (w : World Key) (i : ℕ) where
  sign_and_send-Sent :
      (before : List (Event Key)) (done : List Key) (user : Key) (closed_count : ℕ)
      → Triple
          (Sent before done closed_count)
          (sign_and_send w (close_participant i user))
          (λ sig. Sent before (done ++ (user ∷ [])) (closed_count + 1))
          (Sent before (done ++ (user ∷ [])) closed_count)
  unfolding sign_and_send
  sign_and_send-Sent before done user closed_count =
      Triple-bind {Q = λ done'. Sent before (done ++ (user ∷ [])) closed_count} _ _
        (Triple-emit (submitted (close_participant i user)) (λ s h. record {
          sent = submitted (close_participant i user) ∷ h.sent;
          appended = rw h.appended refl;
          attempts = rw h.attempts refl;
          closed = h.closed;
        }))
        (λ done'.
          Triple-bind {Q = λ sig. Sent before (done ++ (user ∷ [])) closed_count} _ _
            (Triple-answer (λ s. w.transaction s.calls (close_participant i user))
              (λ a s h. again s h) again)
            (λ sig.
              Triple-bind {Q = λ done''. Sent before (done ++ (user ∷ [])) (closed_count + 1)} _ _
                (Triple-emit (confirmed (close_participant i user)) (λ s h. record {
                  sent = confirmed (close_participant i user) ∷ h.sent;
                  appended = rw h.appended refl;
                  attempts = h.attempts;
                  closed = omega (arith, h.closed);
                }))
                (λ done''. Triple-pure sig (λ s h. h))))
    where
      again :
          (s : Crank Key)
          → Sent before (done ++ (user ∷ [])) closed_count s
          → Sent before (done ++ (user ∷ [])) closed_count (answered s)
      again s h = record {
        sent = h.sent;
        appended = h.appended;
        attempts = h.attempts;
        closed = h.closed;
      }

  close_participants-Accounted :
      (before : List (Event Key)) (base : ParticipantCleanupStats) (done users : List Key)
      (stats : ParticipantCleanupStats)
      → Accounted base done stats
      → Triple
          (Sent before done stats.closed)
          (close_participants w i users stats)
          (λ stats' s.
            Accounted base (done ++ users) stats' × Sent before (done ++ users) stats'.closed s)
          (λ s. ⊥)
  unfolding close_participants
  close_participants-Accounted before base done [] stats h =
      subst
        (λ us.
          Triple (Sent before done stats.closed) (close_participants w i [] stats)
            (λ stats' s. Accounted base us stats' × Sent before us stats'.closed s) (λ s. ⊥))
        (sym (append-nil done)) (unfold close_participants in Triple-pure stats (λ s k. (h, k)))
  close_participants-Accounted before base done (user ∷ users) stats h =
      subst
        (λ us.
          Triple (Sent before done stats.closed) (close_participants w i (user ∷ users) stats)
            (λ stats' s. Accounted base us stats' × Sent before us stats'.closed s) (λ s. ⊥))
        (append_assoc done (user ∷ []) users)
        (unfold close_participants in
          Triple-bind
            {Q = λ stats' s.
              Accounted base (done ++ (user ∷ [])) stats'
              × Sent before (done ++ (user ∷ [])) stats'.closed s}
            _ _
            (Triple-try {F = Sent before (done ++ (user ∷ [])) stats.closed} _ _
              (Triple-bind {Q = λ sig. Sent before (done ++ (user ∷ [])) (stats.closed + 1)} _ _
                (sign_and_send-Sent before done user stats.closed)
                (λ sig. Triple-pure _ (λ s k. (one_more, k))))
              (λ message. Triple-pure _ (λ s k. (one_failed, k))))
            (λ stats'. record {
              at = λ s (k, sent).
                  (close_participants-Accounted before base (done ++ (user ∷ [])) users stats' k).at
                    s sent;
            }))
    where
      one_more : Accounted base (done ++ (user ∷ [])) (record stats { closed = stats.closed + 1 })
      one_more = record {
        existing = h.existing;
        closable = h.closable;
        blocked = h.blocked;
        counted = omega (arith, h.counted, length-append done (user ∷ []));
      }

      one_failed : Accounted base (done ++ (user ∷ [])) (record stats { errors = stats.errors + 1 })
      one_failed = record {
        existing = h.existing;
        closable = h.closable;
        blocked = h.blocked;
        counted = omega (arith, h.counted, length-append done (user ∷ []));
      }

take_nil : {A : Type 0} (n : ℕ) → take {A = A} n [] ≡ []
take_nil zero = refl
take_nil (suc n) = refl

no_members : {A : Type 0} (xs : List A) → (length xs == 0) ≡ true → xs ≡ []
no_members [] e = refl
no_members (x ∷ xs) e = ground (arith, e)

module _ {Key : Type 0} (w : World Key) (chain : Key → Option Buffer) where
  -- The report of a cleanup, with the events before and after it.
  abbrev pub Reports :
      RoundData Key → List (Event Key) → ParticipantCleanupStats → Crank Key → Type 0
  Reports rd before stats s =
      IsReport w.public_key rd.status w.participant_cleanup_batch chain rd.participants before
        s.events stats

-- A chain whose accounts do not change while they are read.
module _ {Key : Type 0} (w : World Key) (i : ℕ) (chain : Key → Option Buffer)
    (reads : (calls : ℕ) (users : List Key) (infos : List (Option Buffer))
      → w.participant_accounts calls i users ≡ answer infos
      → infos ≡ map chain users) where
  nothing-Reports :
      (rd : RoundData Key) (s : Crank Key)
      → rd.participants ≡ []
      → Reports w chain rd s.events no_stats s
  nothing-Reports rd s e =
      subst
        (λ users.
          IsReport w.public_key rd.status w.participant_cleanup_batch chain users s.events s.events
            no_stats)
        (sym e)
        (record {
          existing = ([], sifted_nil, refl);
          blocked = ([], sifted_nil, refl);
          closable_users = [];
          sifted = sifted_nil;
          closable = refl;
          sent = [];
          appended = refl;
          attempts = sym (take_nil w.participant_cleanup_batch);
          closed = refl;
          unreadable = 0;
          counted = ([], sifted_nil, refl);
          failed = rw (take_nil {A = Key} w.participant_cleanup_batch) refl;
        })

  survey-Reports :
      (rd : RoundData Key) (before : List (Event Key)) (v : Survey Key)
      (stats : ParticipantCleanupStats) (s : Crank Key)
      → Surveyed w.public_key rd.status chain rd.participants v
      → Accounted v.stats (take w.participant_cleanup_batch v.closable_users) stats
      → Sent before (take w.participant_cleanup_batch v.closable_users) stats.closed s
      → Reports w chain rd before stats s
  survey-Reports rd before v stats s h k sent = record {
    existing = subst (IsCount _ rd.participants) (sym k.existing) h.existing;
    blocked = subst (IsCount _ rd.participants) (sym k.blocked) h.blocked;
    closable_users = v.closable_users;
    sifted = h.sifted;
    closable = rw k.closable h.closable;
    sent = sent.sent;
    appended = sent.appended;
    attempts = sent.attempts;
    closed = sent.closed;
    unreadable = v.stats.errors;
    counted = h.unreadable;
    failed = k.counted;
  }

  none_yet :
      (status : ℕ)
      → Surveyed w.public_key status chain [] (record { stats = no_stats; closable_users = [] })
  none_yet status = record {
    existing = ([], sifted_nil, refl);
    blocked = ([], sifted_nil, refl);
    unreadable = ([], sifted_nil, refl);
    sifted = sifted_nil;
    closable = refl;
    none_closed = refl;
  }

  -- When the cleanup of a round's participants returns, on a chain whose accounts do not change
  -- while they are read, where an answer has one entry for each address that was asked for: it
  -- counts as existing the participants with an account; as blocked by a refund those whose
  -- account is readable and has deposits or tickets when the round is cancelled; as closable the
  -- other readable ones; it submits a close for the first of the closable ones, in their order, as
  -- many as the batch has room for, and for nobody else; as closed it counts the closes that were
  -- confirmed; and as errors the accounts that cannot be read and the closes that failed. It only
  -- throws when a read of the accounts failed.
  pub cleanup_participant_pdas-IsReport :
      (rd : RoundData Key) (s : Crank Key)
      → Post
          (λ stats s'. Reports w chain rd s.events stats s')
          (λ s'. ReadFailed w i)
          (cleanup_participant_pdas w i rd s)
  unfolding cleanup_participant_pdas record_stats
  cleanup_participant_pdas-IsReport rd s =
      (Triple-if {P = λ s'. s' ≡ s} (length rd.participants == 0) _ _
          (λ e. Triple-pure no_stats (λ s' same.
            subst (Reports w chain rd s.events no_stats) (sym same)
              (nothing-Reports rd s (no_members rd.participants e))))
          (λ e.
            Triple-bind _ _
              (Triple-weaken _ (λ s' same. rw same refl) (λ v s' h. h) (λ s' h. h)
                (survey_chunks-Surveyed w i chain reads s.events (length rd.participants) rd.status
                  [] rd.participants _ (omega arith) (none_yet rd.status)))
              (λ v.
                Triple-bind {Q = Reports w chain rd s.events} _ _
                  (record { at = λ s' (h, same). closed s' v h same })
                  (λ stats.
                    Triple-bind {Q = λ done. Reports w chain rd s.events stats} _ _
                      (Triple-bind {Q = λ t. Reports w chain rd s.events stats} _ _
                        (Triple-now w (λ t s' h. h)) (λ t. Triple-modify _ (λ s' h. h)))
                      (λ done. Triple-pure stats (λ s' h. h)))))).at
        s refl
    where
      closed :
          (s' : Crank Key) (v : Survey Key)
          → Surveyed w.public_key rd.status chain rd.participants v
          → s'.events ≡ s.events
          → Post
              (λ stats s''. Reports w chain rd s.events stats s'')
              (λ s''. ReadFailed w i)
              (close_participants w i
                (take w.participant_cleanup_batch v.closable_users)
                v.stats
                s')
      closed s' v h same =
          (Triple-weaken {P' = λ s''. s''.events ≡ s.events} _
              (λ s'' unchanged. record {
                sent = [];
                appended = unchanged;
                attempts = refl;
                closed = sym h.none_closed;
              })
              (λ stats s'' (k, sent). survey-Reports rd s.events v stats s'' h k sent)
              (λ s'' never. absurd never)
              (close_participants-Accounted w i s.events v.stats []
                (take w.participant_cleanup_batch v.closable_users) v.stats
                (record {
                  existing = refl;
                  closable = refl;
                  blocked = refl;
                  counted = omega (arith, h.none_closed);
                }))).at
            s' same
