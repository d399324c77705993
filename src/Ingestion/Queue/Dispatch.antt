-- ===== src/Ingestion/Queue/Dispatch.antt =====
-- The jobs and threads that dispatch_documents_ingestion of
-- backend/app/services/ingestion_queue.py starts.
use omni_ai_v.Prelude.{
  ℕ, suc, ◌+◌, ◌≡◌, refl, sym, ap, ◌∙◌, String, Option, none, some, true, false, ◌&&◌, not, List,
  [], ◌∷◌, ◌++◌, arith, length, if◌then◌else◌, ◌==◌, nat_comparable, any, select, tally,
  tally-append, Bool-cases, inl, inr, beq_refl,
}
use omni_ai_v.Ingestion.Queue.{
  Job, State, Broker, assigned, answer_of, connected, job_for, enqueue_one, enqueue_from,
  enqueue_documents_ingestion, unique_from, unique_ids, dispatch_to, dispatch_documents_ingestion,
}

-- How often a key stands among the jobs, and among keys.
abbrev pub jobs_of : ℕ → List Job → ℕ
jobs_of i = tally (λ j. j.document_id == i)

abbrev pub count_of : ℕ → List ℕ → ℕ
count_of i = tally (λ j. j == i)

jobs-append :
    (i : ℕ) (q : List Job) (j : Job)
    → jobs_of i (q ++ j ∷ []) ≡ jobs_of i q + (if j.document_id == i then 1 else 0)
jobs-append i q j = tally-append (λ x. x.document_id == i) q (j ∷ []) ∙ omega arith

-- No call of `queue.enqueue` raises.
abbrev pub IsUp : Broker → Type 0
IsUp b = (index i : ℕ) → b.enqueue_error index i ≡ none

assigned-queue : (pending : Option (ℕ × String)) (s : State) → (assigned pending s).queue ≡ s.queue
assigned-queue none s = refl
assigned-queue (some (i, job_id)) s = refl

pub answer_of-state : (n : ℕ) (r : Option String × State) → (answer_of n r).1 ≡ r.1
answer_of-state n (none, s) = refl
answer_of-state n (some e, s) = refl

enqueued :
    (b : Broker) (index : ℕ) (pending : Option (ℕ × String)) (ids : List ℕ) (s : State) (i : ℕ)
    → IsUp b
    → ((enqueue_from b index pending ids s).0 ≡ none)
      × (jobs_of i (enqueue_from b index pending ids s).1.queue
          ≡ jobs_of i s.queue + count_of i ids)
unfolding enqueue_from enqueue_one
enqueued b index pending [] s i up = (refl, rw (assigned-queue pending s) (omega arith))
enqueued b index pending (k ∷ ids) s i up =
    let next = enqueue_one b index k (assigned pending s) in
    let (quiet, rest) = enqueued b (suc index) (some (k, b.job_id k index)) ids next i up in
    let same = ap (jobs_of i) (assigned-queue pending s) in
    rw (up index k) (
      quiet,
      omega (arith, rest, same, jobs-append i (assigned pending s).queue (job_for b index k)),
    )

unique_lem :
    (seen ids : List ℕ) (i : ℕ)
    → count_of i (unique_from seen ids)
      ≡ (if any (λ j. j == i) ids && not (any (λ j. j == i) seen) then 1 else 0)
unfolding unique_from
unique_lem seen [] i = refl
unique_lem seen (k ∷ ids) i = elim (Bool-cases (any (λ j. j == k) seen)) [
  | inl e ↦ rw e (elim (Bool-cases (k == i)) [
    | inl f ↦
        let q : k ≡ i = ground arith in
        rw q (
          let e' : any (λ j. j == i) seen ≡ true = rw (sym q) e in
          ground (arith, unique_lem seen ids i))
    | inr f ↦ ground (arith, unique_lem seen ids i)
  ])
  | inr e ↦ rw e (elim (Bool-cases (k == i)) [
    | inl f ↦
        let q : k ≡ i = ground arith in
        rw q (
          let e' : any (λ j. j == i) seen ≡ false = rw (sym q) e in
          ground (arith, beq_refl i, unique_lem (i ∷ seen) ids i))
    | inr f ↦ ground (arith, unique_lem (k ∷ seen) ids i)
  ])
]

count-nonzero :
    (ids : List ℕ) (i : ℕ)
    → count_of i (select (λ j. not (j == 0)) ids) ≡ (if i == 0 then 0 else count_of i ids)
count-nonzero [] i = ground arith
count-nonzero (k ∷ ids) i = ground (arith, count-nonzero ids i)

dispatched_jobs :
    (b : Broker) (n : ℕ) (ids : List ℕ) (s : State) (i : ℕ)
    → IsUp b
    → jobs_of i (dispatch_to b (connected (suc n)) ids s).1.queue
      ≡ jobs_of i s.queue + count_of i ids
unfolding enqueue_documents_ingestion
dispatched_jobs b n [] s i up = omega arith
dispatched_jobs b n (k ∷ ids) s i up =
    rw (answer_of-state (suc (length ids)) (enqueue_from b 0 none (k ∷ ids) s))
      (enqueued b 0 none (k ∷ ids) s i up).1

-- With a worker connected and no exception of RQ, a dispatch adds one job for each document named, however often it is
-- named, and none for another or for the key 0.
pub dispatch_documents_ingestion_once :
    (b : Broker) (ids : List ℕ) (s : State) {n : ℕ} (i : ℕ)
    → b.worker_count ≡ connected (suc n)
    → IsUp b
    → jobs_of i (dispatch_documents_ingestion b ids s).1.queue
      ≡ jobs_of i s.queue + (if any (λ j. j == i) ids && not (i == 0) then 1 else 0)
unfolding dispatch_documents_ingestion unique_ids
dispatch_documents_ingestion_once b ids s {n} i h up = rw h (
    dispatched_jobs b n (unique_ids ids) s i up
    ∙ ap (λ c. jobs_of i s.queue + c)
        (count-nonzero (unique_from [] ids) i ∙ ground (arith, unique_lem [] ids i)))
