-- ===== src/Uploads/Dispatch.antt =====
-- The dispatch at the end of upload_document of backend/app/api/upload_routes.py, where the ingestion
-- runs in the background.
use mathlib.Core.Bool.{or-true}
use omni_ai_v.Prelude.{
  ℕ, zero, suc, ◌<◌, ◌≡◌, ◌∙◌, refl, String, Option, none, some, if◌then◌else◌, Option-cases, Bool,
  true, false, ◌||◌, [], ◌∷◌, arith, ◌==◌, nat_comparable, any, beq_refl, Bool-cases, inl, inr,
}
use omni_ai_v.Rows.{any-append_right}
use omni_ai_v.Ingestion.{IndexedDocument}
use omni_ai_v.Ingestion.Queue.{
  Broker, WorkerCount, unreachable, connected, Dispatched, dispatched, raised,
  dispatch_document_ingestion, dispatch_documents_ingestion, unique_ids, dispatch_to, job_for,
  enqueue_documents_ingestion, run_inline,
}
use omni_ai_v.Ingestion.Queue
use omni_ai_v.Uploads.{
  Env, State, Params, receive, ingest_queue_enabled, should_use_background_tasks,
}
use omni_ai_v.Uploads.Start.{Uploaded, to_queue, accepted, start, started, upload_document}
use omni_ai_v.Uploads.Validation.{UploadFile, Result, ok, http_exception}

-- The document is queued or given to a thread.
abbrev pub is_taken : ℕ → Queue.State → Bool
is_taken id q = any (λ j. j.document_id == id) q.queue || any (λ i. i == id) q.threads

-- The document is queued, or given to a thread or a background task.
abbrev pub is_under_way : ℕ → State → Bool
is_under_way id s = any (λ i. i == id) s.background_tasks || is_taken id s.jobs

-- The dispatch went through and the document is taken, or RQ raised, and the queue and the threads are
-- as before.
abbrev pub IsDispatched : ℕ → Option String → Queue.State → Dispatched × Queue.State → Type 0
IsDispatched id e q (dispatched route n, after) = (e ≡ none) × (is_taken id after ≡ true)
IsDispatched id e q (raised error, after) =
    (e ≡ some error) × (after.queue ≡ q.queue) × (after.threads ≡ q.threads)

-- The exception of RQ, if there is a worker.
abbrev pub rq_error : Broker → WorkerCount → ℕ → Option String
rq_error b unreachable id = none
rq_error b (connected zero) id = none
rq_error b (connected (suc n)) id = b.enqueue_error 0 id

dispatch_to-IsDispatched :
    (b : Broker) (count : WorkerCount) (id : ℕ) (q : Queue.State)
    → IsDispatched id (rq_error b count id) q (dispatch_to b count (id ∷ []) q)
unfolding enqueue_documents_ingestion run_inline
dispatch_to-IsDispatched b unreachable id q = (
  refl,
  rw (any-append_right (λ i. i == id) q.threads (id ∷ []) (rw (beq_refl id) refl)) (or-true _),
)
dispatch_to-IsDispatched b (connected zero) id q = (
  refl,
  rw (any-append_right (λ i. i == id) q.threads (id ∷ []) (rw (beq_refl id) refl)) (or-true _),
)
dispatch_to-IsDispatched b (connected (suc n)) id q = elim (Option-cases (b.enqueue_error 0 id)) [
  | inl up ↦ rw up (
    refl,
    rw
        (any-append_right (λ j. j.document_id == id) q.queue (job_for b 0 id ∷ [])
          (rw (beq_refl id) refl))
        refl,
  )
  | inr (e, down) ↦ rw down (refl, refl, refl)
]

dispatch-IsDispatched :
    (b : Broker) (id : ℕ) (q : Queue.State)
    → 0 < id
    → IsDispatched id (rq_error b b.worker_count id) q (dispatch_document_ingestion b id q)
unfolding dispatch_document_ingestion dispatch_documents_ingestion unique_ids
dispatch-IsDispatched b id q h =
    let positive : (id == 0) ≡ false = ground arith in
    rw positive (dispatch_to-IsDispatched b b.worker_count id q)

-- The answer and where the document went, or the exception of RQ, which has taken nothing.
abbrev pub IsStarted : ℕ → Option String → State → Result Uploaded × State → Type 0
IsStarted id e s (ok answer, after) =
    (e ≡ none) × (answer ≡ accepted id) × (is_under_way id after ≡ true)
IsStarted id e s (http_exception status detail, after) =
    (e ≡ some detail)
    × (status ≡ 500)
    × (after.jobs.queue ≡ s.jobs.queue)
    × (after.jobs.threads ≡ s.jobs.threads)
    × (after.background_tasks ≡ s.background_tasks)

-- The exception that the dispatch meets, if the queue is used.
abbrev pub dispatch_error : Env → ℕ → Option String
dispatch_error env id =
    if env.ingest_uses_rq_queue then rq_error env.broker env.broker.worker_count id else none

or_right : (a b : Bool) → b ≡ true → (a || b) ≡ true
or_right a b h = rw h (or-true a)

to_queue-IsStarted :
    (id : ℕ) (e : Option String) (s : State) (q : Queue.State) (r : Dispatched × Queue.State)
    → q.queue ≡ s.jobs.queue
    → q.threads ≡ s.jobs.threads
    → IsDispatched id e q r
    → IsStarted id e s (to_queue id s r)
to_queue-IsStarted id e s q (dispatched route n, after) same same' h = (h.0, refl, or_right _ _ h.1)
to_queue-IsStarted id e s q (raised error, after) same same' h =
    (h.0, refl, h.1 ∙ same, h.2 ∙ same', refl)

start-IsStarted :
    (env : Env) (id : ℕ) (s : State)
    → env.ingest_in_background ≡ true
    → 0 < id
    → IsStarted id (dispatch_error env id) s (start env id s)
unfolding start ingest_queue_enabled should_use_background_tasks
start-IsStarted env id s background h =
    let q : Queue.State = record s.jobs { documents = s.store.documents } in
    elim (Bool-cases env.ingest_uses_rq_queue) [
      | inl e ↦
          rw (background, e)
            (to_queue-IsStarted id (rq_error env.broker env.broker.worker_count id) s q _ refl refl
              (dispatch-IsDispatched env.broker id q h))
      | inr e ↦
          rw (background, e)
            (
              refl,
              refl,
              rw
                  (any-append_right (λ i. i == id) s.background_tasks (id ∷ [])
                    (rw (beq_refl id) refl))
                  refl,
            )
    ]

started-IsStarted :
    (env : Env) (r : Result IndexedDocument × State) (d : IndexedDocument)
    → env.ingest_in_background ≡ true
    → r.0 ≡ ok d
    → 0 < d.id
    → IsStarted d.id (dispatch_error env d.id) r.1 (started env r)
started-IsStarted env (http_exception status detail, t) d background e h = absurd (cc e)
started-IsStarted env (ok c, t) d background e h =
    let same : c ≡ d = cc e in rw same (start-IsStarted env d.id t background h)

-- Where the ingestion runs in the background, an upload whose row was inserted, under a positive key,
-- is answered with that key, and the document is then queued, or given to a thread or a background
-- task; except where the queue is used, a worker is connected and RQ raises, which is answered with
-- 500 and leaves the queue, the threads and the background tasks as they were after the insert.
pub upload_document-IsStarted :
    (env : Env) (user_id : ℕ) (file : UploadFile) (p : Params) (s : State) (d : IndexedDocument)
    → env.ingest_in_background ≡ true
    → (receive env user_id file p s).0 ≡ ok d
    → 0 < d.id
    → IsStarted d.id
        (dispatch_error env d.id)
        (receive env user_id file p s).1
        (upload_document env user_id file p s)
unfolding upload_document
upload_document-IsStarted env user_id file p s d =
    started-IsStarted env (receive env user_id file p s) d
