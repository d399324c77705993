-- ===== src/Ingestion/Queue/Failures.antt =====
-- Sequences of calls of backend/app/services/ingestion_queue.py, and the dead letters of failed
-- documents.
use omni_ai_v.Prelude.{
  ℕ, zero, suc, ◌≡◌, refl, String, Bool, true, false, ◌||◌, not, Option, none, some, List, [], ◌∷◌,
  ◌++◌, arith, ◌==◌, nat_comparable, text_comparable, ltb, any, take, length, if◌then◌else◌, select,
  subst, Option-cases, Bool-cases, inl, inr, All, All-imp,
}
use omni_ai_v.Rows.{update_where_imp, All-update_where, any-append_left, any-append_right}
use mathlib.Core.Bool.{or-true}
use mathlib.Core.List.{append-nil}
use omni_ai_v.Ingestion.Worker.{Pipeline, Store, ingest_document_record}
use omni_ai_v.Ingestion.Worker.Isolation.{ingest_document_record_others}
use omni_ai_v.Ingestion.Queue.Dispatch.{answer_of-state}
use omni_ai_v.Workspace.{is_ref}
use omni_ai_v.Ingestion.{IndexedDocument, update_indexing_progress, mark_indexing_failed}
use omni_ai_v.Ingestion.Queue.{
  DeadLetter, State, assigned, Broker, WorkerCount, unreachable, connected, queued_started,
  enqueue_one, enqueue_from, enqueue_documents_ingestion, unique_ids, dispatch_to,
  dispatch_documents_ingestion, run_inline, run_ingest_inline_thread, recovered,
  try_recover_stuck_queued_document, on_ingestion_job_failure, failed_row, requeue_failed_job,
}

-- A call of the queue module, with what the environment answers to it, or the run of a thread that was
-- started for a document; `store` has the chunks and the files that it finds.
pub data Event : Type 0 where
  dispatch : (b : Broker) (document_ids : List ℕ) → Event
  recover : (b : Broker) (document_id : ℕ) → Event
  job_failure :
      (b : Broker) (job_id : String) (document_id : Option ℕ) (retries_left : ℕ) (reason : String)
      → Event
  requeue : (b : Broker) (new_id : String) (document_id : ℕ) → Event
  thread_run : (p : Pipeline) (now : ℕ) (store : Store) (document_id : ℕ) → Event

abbrev pub thread_ran : Pipeline → ℕ → Store → ℕ → State → State
thread_ran p now store i s = record s {
  documents =
      (ingest_document_record p now i false (record store { documents = s.documents })).1.documents;
}

unfoldable pub step : State → Event → State
step s (dispatch b ids) = (dispatch_documents_ingestion b ids s).1
step s (recover b i) = (try_recover_stuck_queued_document b i s).1
step s (job_failure b job_id i retries_left reason) =
    on_ingestion_job_failure b job_id i retries_left reason s
step s (requeue b new_id i) = requeue_failed_job b new_id i s
step s (thread_run p now store i) =
    let ran = thread_ran p now store i s in if any (λ j. j == i) s.threads then ran else s

unfoldable pub steps : State → List Event → State
unfolding step
steps s [] = s
steps s (e ∷ es) = steps (step s e) es

abbrev pub has_letter : List DeadLetter → List ℕ → IndexedDocument → Bool
has_letter letters threads d =
    not (d.indexing_stage == "failed")
    || any (λ l. is_ref l.document_id d.id) letters
    || any (λ i. i == d.id) threads

-- Each document in stage `failed` has a dead letter, or was given to a thread.
abbrev pub HasLetters : State → Type 0
HasLetters s = All (λ d. has_letter s.dead_letters s.threads d ≡ true) s.documents

queued-lettered :
    (now i : ℕ) (letters : List DeadLetter) (threads : List ℕ) (db : List IndexedDocument)
    → All (λ d. has_letter letters threads d ≡ true) db
    → All (λ d. has_letter letters threads d ≡ true) (queued_started now i db)
unfolding update_indexing_progress
queued-lettered now i letters threads db h = All-update_where _ _ _ db (λ d p e. refl) h

or_right : (a b : Bool) → b ≡ true → (a || b) ≡ true
or_right a b h = rw h (or-true a)

-- More letters and threads keep it.
more-lettered :
    (letters new : List DeadLetter) (threads started : List ℕ) (d : IndexedDocument)
    → has_letter letters threads d ≡ true
    → has_letter (letters ++ new) (threads ++ started) d ≡ true
more-lettered letters new threads started d h = elim (Bool-cases (d.indexing_stage == "failed")) [
  | inr f ↦ rw f refl
  | inl f ↦ elim (Bool-cases (any (λ l. is_ref l.document_id d.id) letters)) [
    | inl e ↦ rw f (rw (any-append_left _ letters new e) refl)
    | inr e ↦
        let given : any (λ i. i == d.id) threads ≡ true = rw (f, e) at h in
        rw f (or_right _ _ (any-append_left _ threads started given))
  ]
]

assigned-HasLetters :
    (pending : Option (ℕ × String)) (s : State) → HasLetters s → HasLetters (assigned pending s)
assigned-HasLetters none s h = h
assigned-HasLetters (some (i, job_id)) s h = All-update_where _ _ _ s.documents (λ d p e. p) h

enqueue_one-HasLetters :
    (b : Broker) (index i : ℕ) (s : State) → HasLetters s → HasLetters (enqueue_one b index i s)
unfolding enqueue_one
enqueue_one-HasLetters b index i s h =
    queued-lettered b.now i s.dead_letters s.threads s.documents h

enqueue_from-HasLetters :
    (b : Broker) (index : ℕ) (pending : Option (ℕ × String)) (ids : List ℕ) (s : State)
    → HasLetters s
    → HasLetters (enqueue_from b index pending ids s).1
unfolding enqueue_from
enqueue_from-HasLetters b index pending [] s h = assigned-HasLetters pending s h
enqueue_from-HasLetters b index pending (i ∷ ids) s h =
    let next = enqueue_one b index i (assigned pending s) in
    let rest =
      enqueue_from-HasLetters b (suc index) (some (i, b.job_id i index)) ids next
        (enqueue_one-HasLetters b index i (assigned pending s) (assigned-HasLetters pending s h)) in
    elim (Option-cases (b.enqueue_error index i)) [
      | inl up ↦ rw up rest
      | inr (e, down) ↦ rw down h
    ]

one_thread :
    (letters : List DeadLetter) (threads : List ℕ) (i : ℕ) (d : IndexedDocument)
    → has_letter letters threads d ≡ true
    → has_letter letters (threads ++ i ∷ []) d ≡ true
one_thread letters threads i d h =
    subst (λ ls. has_letter ls (threads ++ i ∷ []) d ≡ true) (append-nil letters)
      (more-lettered letters [] threads (i ∷ []) d h)

thread-HasLetters :
    (b : Broker) (has_db : Bool) (i : ℕ) (s : State)
    → HasLetters s
    → HasLetters (run_ingest_inline_thread b has_db i s)
unfolding run_ingest_inline_thread
thread-HasLetters b has_db i s h =
    let more = All-imp s.documents (λ d p. one_thread s.dead_letters s.threads i d p) h in
    elim (Bool-cases has_db) [
      | inl e ↦ rw e (queued-lettered b.now i s.dead_letters (s.threads ++ i ∷ []) s.documents more)
      | inr e ↦ rw e more
    ]

run_inline-HasLetters :
    (b : Broker) (ids : List ℕ) (s : State) → HasLetters s → HasLetters (run_inline b ids s)
unfolding run_inline
run_inline-HasLetters b [] s h = h
run_inline-HasLetters b (i ∷ ids) s h =
    run_inline-HasLetters b ids (run_ingest_inline_thread b true i s)
      (thread-HasLetters b true i s h)

dispatch_to-HasLetters :
    (b : Broker) (count : WorkerCount) (ids : List ℕ) (s : State)
    → HasLetters s
    → HasLetters (dispatch_to b count ids s).1
unfolding enqueue_documents_ingestion
dispatch_to-HasLetters b count [] s h = h
dispatch_to-HasLetters b unreachable (i ∷ ids) s h = run_inline-HasLetters b (take 5 (i ∷ ids)) s h
dispatch_to-HasLetters b (connected zero) (i ∷ ids) s h =
    run_inline-HasLetters b (take 5 (i ∷ ids)) s h
dispatch_to-HasLetters b (connected (suc n)) (i ∷ ids) s h =
    rw (answer_of-state (suc (length ids)) (enqueue_from b 0 none (i ∷ ids) s))
      (enqueue_from-HasLetters b 0 none (i ∷ ids) s h)

recovered-HasLetters :
    (b : Broker) (count : WorkerCount) (i : ℕ) (s : State)
    → HasLetters s
    → HasLetters (recovered b count i s).1
recovered-HasLetters b unreachable i s h = h
recovered-HasLetters b (connected (suc n)) i s h = h
recovered-HasLetters b (connected zero) i s h =
    elim (Bool-cases (any (λ j. j == i) s.recovery_started)) [
      | inl e ↦ rw e h
      | inr e ↦
          rw e
            (thread-HasLetters b false i (record s { recovery_started = i ∷ s.recovery_started }) h)
    ]

one_letter :
    (letters : List DeadLetter) (l : DeadLetter) (threads : List ℕ) (d : IndexedDocument)
    → has_letter letters threads d ≡ true
    → has_letter (letters ++ l ∷ []) threads d ≡ true
one_letter letters l threads d h =
    subst (λ ts. has_letter (letters ++ l ∷ []) ts d ≡ true) (append-nil threads)
      (more-lettered letters (l ∷ []) threads [] d h)

failed_row-lettered :
    (b : Broker) (i : Option ℕ) (reason : String) (l : DeadLetter) (s : State)
    → l.document_id ≡ i
    → HasLetters s
    → All
        (λ d. has_letter (s.dead_letters ++ l ∷ []) s.threads d ≡ true)
        (failed_row b i reason s.documents)
unfolding mark_indexing_failed update_indexing_progress
failed_row-lettered b none reason l s e h =
    All-imp s.documents (λ d p. one_letter s.dead_letters l s.threads d p) h
failed_row-lettered b (some i) reason l s e h =
    update_where_imp (λ d. has_letter s.dead_letters s.threads d ≡ true) _ _ _ s.documents
      (λ d p hit.
        rw
          (any-append_right (λ x. is_ref x.document_id d.id) s.dead_letters (l ∷ [])
            (rw e (ground arith)))
          refl)
      (λ d p miss. one_letter s.dead_letters l s.threads d p) h

on_ingestion_job_failure-HasLetters :
    (b : Broker) (job_id : String) (i : Option ℕ) (retries_left : ℕ) (reason : String) (s : State)
    → HasLetters s
    → HasLetters (on_ingestion_job_failure b job_id i retries_left reason s)
unfolding on_ingestion_job_failure
on_ingestion_job_failure-HasLetters b job_id i n reason s h = elim (Bool-cases (ltb 0 n)) [
  | inl e ↦ rw e h
  | inr e ↦ rw e (failed_row-lettered b i reason _ s refl h)
]

-- Rows that pass a test, and others that need it not.
All-of_select {ℓ κ} :
    {A : Type ℓ} (P : A → Type κ) (q : A → Bool) (xs : List A)
    → ((x : A) → q x ≡ false → P x)
    → All P (select q xs)
    → All P xs
All-of_select P q [] out h = tt
All-of_select P q (x ∷ xs) out h = elim (Bool-cases (q x)) [
  | inl e ↦
      let both : P x × All P (select q xs) = rw e at h in (both.0, All-of_select P q xs out both.1)
  | inr e ↦ (out x e, All-of_select P q xs out (rw e at h))
]

All-to_select {ℓ κ} :
    {A : Type ℓ} (P : A → Type κ) (q : A → Bool) (xs : List A) → All P xs → All P (select q xs)
All-to_select P q [] h = tt
All-to_select P q (x ∷ xs) h = elim (Bool-cases (q x)) [
  | inl e ↦ rw e (h.0, All-to_select P q xs h.1)
  | inr e ↦ rw e (All-to_select P q xs h.1)
]

threaded :
    (letters : List DeadLetter) (threads : List ℕ) (d : IndexedDocument)
    → any (λ j. j == d.id) threads ≡ true
    → has_letter letters threads d ≡ true
threaded letters threads d given = rw given (or-true _)

thread_ran-HasLetters :
    (p : Pipeline) (now : ℕ) (store : Store) (i : ℕ) (s : State)
    → any (λ j. j == i) s.threads ≡ true
    → HasLetters s
    → HasLetters (thread_ran p now store i s)
thread_ran-HasLetters p now store i s given h =
    let lettered = λ (d : IndexedDocument). has_letter s.dead_letters s.threads d ≡ true in
    let kept =
      ingest_document_record_others p now i false (record store { documents = s.documents }) in
    All-of_select lettered (λ d. not (d.id == i)) _
      (λ d own.
        let same : d.id ≡ i = ground arith in threaded s.dead_letters s.threads d (rw same given))
      (rw kept.0 (All-to_select lettered (λ d. not (d.id == i)) s.documents h))

step-HasLetters : (s : State) (e : Event) → HasLetters s → HasLetters (step s e)
unfolding step dispatch_documents_ingestion try_recover_stuck_queued_document requeue_failed_job
step-HasLetters s (dispatch b ids) h = dispatch_to-HasLetters b b.worker_count (unique_ids ids) s h
step-HasLetters s (recover b i) h = recovered-HasLetters b b.worker_count i s h
step-HasLetters s (job_failure b job_id i n reason) h =
    on_ingestion_job_failure-HasLetters b job_id i n reason s h
step-HasLetters s (requeue b new_id i) h = h
step-HasLetters s (thread_run p now store i) h = elim (Bool-cases (any (λ j. j == i) s.threads)) [
  | inl given ↦ rw given (thread_ran-HasLetters p now store i s given h)
  | inr absent ↦ rw absent h
]

-- If each document in stage `failed` has a dead letter or was given to a thread of the API process, this
-- is so after any calls of the queue module and runs of those threads.
pub steps-HasLetters : (s : State) (es : List Event) → HasLetters s → HasLetters (steps s es)
unfolding steps
steps-HasLetters s [] h = h
steps-HasLetters s (e ∷ es) h = steps-HasLetters (step s e) es (step-HasLetters s e h)
