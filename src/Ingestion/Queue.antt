-- ===== src/Ingestion/Queue.antt =====
-- backend/app/services/ingestion_queue.py: dispatch of documents to the queue or to threads of the
-- API process, the failure hook with the dead-letter queue, and the recovery of stuck documents.
-- RQ and Redis are what `Broker` says they answer; a job is the arguments of its `enqueue`.
pub mod Dispatch
pub mod Failures
use Prim.Native.String.{◌++◌ as concat}
use omni_ai_v.Prelude.{
  ℕ, zero, suc, String, Bool, true, false, ◌&&◌, not, Option, none, some, List, [], ◌∷◌, ◌++◌,
  if◌then◌else◌, ◌==◌, nat_comparable, ltb, any, select, length, take, min, is_some,
}
use omni_ai_v.Rows.{update_where}
use omni_ai_v.Ingestion.{
  IndexedDocument, to_stage, to_failed, update_indexing_progress, mark_indexing_failed,
}

-- An entry of the queue `ingest`.
pub record Job : Type 0 where
  pub id : String
  pub document_id : ℕ
  pub retries_left : ℕ

-- An entry of the queue `ingest-dlq`, without the duration of the job.
pub record DeadLetter : Type 0 where
  pub source_job_id : String
  pub document_id : Option ℕ
  pub failure_reason : String

-- The rows, the two queues, the documents given to a thread, and `_inline_recovery_started`.
pub record State : Type 0 where
  pub documents : List IndexedDocument
  pub queue : List Job
  pub dead_letters : List DeadLetter
  pub threads : List ℕ
  pub recovery_started : List ℕ

-- How many workers are connected, or that Redis cannot be reached (the source's -1).
pub data WorkerCount : Type 0 where
  unreachable : WorkerCount
  connected : ℕ → WorkerCount

-- The answers of RQ, the clock, the settings, and the name `ingest-doc-<id>-<time>-<index>` of a job;
-- `enqueue_error` is the exception of `queue.enqueue`, for the turn of the loop and the document.
pub record Broker : Type 0 where
  pub worker_count : WorkerCount
  pub now : ℕ
  pub max_retries : ℕ
  pub job_id : ℕ → ℕ → String
  pub exhausted_message : String → String
  pub enqueue_error : ℕ → ℕ → Option String

abbrev pub queued_started : ℕ → ℕ → List IndexedDocument → List IndexedDocument
queued_started now i db =
    update_indexing_progress now db i (record (to_stage "queued") { mark_started = true })

abbrev pub with_job : String → IndexedDocument → IndexedDocument
with_job job_id d = record d { indexing_job_id = some job_id }

abbrev pub job_for : Broker → ℕ → ℕ → Job
job_for b index i = record { id = b.job_id i index; document_id = i; retries_left = b.max_retries }

-- The assignment of a job's id to its document, which the next commit stores.
abbrev pub assigned : Option (ℕ × String) → State → State
assigned none s = s
assigned (some (i, job_id)) s = record s {
  documents = update_where (λ d. d.id == i) (with_job job_id) s.documents;
}

-- One turn of the loop of `enqueue_documents_ingestion`; `update_indexing_progress` commits.
unfoldable pub enqueue_one : Broker → ℕ → ℕ → State → State
enqueue_one b index i s = record s {
  queue = s.queue ++ job_for b index i ∷ [];
  documents = queued_started b.now i s.documents;
}

-- What an exception leaves: the turns before, less the assignment that was not committed.
abbrev pub unless_raised : Option String → State → Option String × State → Option String × State
unless_raised none s rest = rest
unless_raised (some e) s rest = (some e, s)

unfoldable pub enqueue_from :
    Broker → ℕ → Option (ℕ × String) → List ℕ → State → Option String × State
unfolding enqueue_one
enqueue_from b index pending [] s = (none, assigned pending s)
enqueue_from b index pending (i ∷ ids) s = unless_raised (b.enqueue_error index i) s (
    enqueue_from b (suc index) (some (i, b.job_id i index)) ids
      (enqueue_one b index i (assigned pending s)))

-- The route and the number of documents, or the exception that is not caught.
pub data Route : Type 0 where
  nothing rq inline_thread : Route

pub data Dispatched : Type 0 where
  dispatched : Route → ℕ → Dispatched
  raised : String → Dispatched

abbrev pub answer_of : ℕ → Option String × State → Dispatched × State
answer_of n (none, s) = (dispatched rq n, s)
answer_of n (some e, s) = (raised e, s)

-- With the route that its caller adds.
unfoldable pub enqueue_documents_ingestion : Broker → List ℕ → State → Dispatched × State
unfolding enqueue_from
enqueue_documents_ingestion b ids s = answer_of (length ids) (enqueue_from b 0 none ids s)

-- `run_ingest_inline_thread` with a database session, and without one: the thread is started, and runs
-- `ingest_document_record` at some later step (Failures).
unfoldable pub run_ingest_inline_thread : Broker → Bool → ℕ → State → State
run_ingest_inline_thread b has_db i s = record s {
  documents = if has_db then queued_started b.now i s.documents else s.documents;
  threads = s.threads ++ i ∷ [];
}

unfoldable pub run_inline : Broker → List ℕ → State → State
unfolding run_ingest_inline_thread
run_inline b [] s = s
run_inline b (i ∷ ids) s = run_inline b ids (run_ingest_inline_thread b true i s)

-- [doc_id for doc_id in dict.fromkeys(document_ids) if doc_id], given what was seen before.
unfoldable pub unique_from : List ℕ → List ℕ → List ℕ
unique_from seen [] = []
unique_from seen (i ∷ ids) =
    let skip = any (λ j. j == i) seen in
    let rest = unique_from (if skip then seen else i ∷ seen) ids in if skip then rest else i ∷ rest

unfoldable pub unique_ids : List ℕ → List ℕ
unfolding unique_from
unique_ids ids = select (λ i. not (i == 0)) (unique_from [] ids)

abbrev pub inline_all : Broker → List ℕ → State → Dispatched × State
inline_all b ids s = (dispatched inline_thread (min (length ids) 5), run_inline b (take 5 ids) s)

abbrev pub dispatch_to : Broker → WorkerCount → List ℕ → State → Dispatched × State
dispatch_to b count [] s = (dispatched nothing 0, s)
dispatch_to b unreachable (i ∷ ids) s = inline_all b (i ∷ ids) s
dispatch_to b (connected zero) (i ∷ ids) s = inline_all b (i ∷ ids) s
dispatch_to b (connected (suc n)) (i ∷ ids) s = enqueue_documents_ingestion b (i ∷ ids) s

unfoldable pub dispatch_documents_ingestion : Broker → List ℕ → State → Dispatched × State
unfolding unique_ids enqueue_documents_ingestion run_inline
dispatch_documents_ingestion b document_ids s =
    dispatch_to b b.worker_count (unique_ids document_ids) s

unfoldable pub dispatch_document_ingestion : Broker → ℕ → State → Dispatched × State
unfolding dispatch_documents_ingestion
dispatch_document_ingestion b document_id s = dispatch_documents_ingestion b (document_id ∷ []) s

abbrev recovered : Broker → WorkerCount → ℕ → State → Bool × State
recovered b unreachable i s = (false, s)
recovered b (connected (suc n)) i s = (false, s)
recovered b (connected zero) i s = if any (λ j. j == i) s.recovery_started then (false, s) else (
  true,
  run_ingest_inline_thread b false i (record s { recovery_started = i ∷ s.recovery_started }),
)

unfoldable pub try_recover_stuck_queued_document : Broker → ℕ → State → Bool × State
unfolding run_ingest_inline_thread
try_recover_stuck_queued_document b i s = recovered b b.worker_count i s

abbrev pub failed_row : Broker → Option ℕ → String → List IndexedDocument → List IndexedDocument
failed_row b none reason db = db
failed_row b (some i) reason db = mark_indexing_failed b.now db i (b.exhausted_message reason)

-- `on_ingestion_job_failure`, for the arguments that it reads off the job.
unfoldable pub on_ingestion_job_failure : Broker → String → Option ℕ → ℕ → String → State → State
on_ingestion_job_failure b job_id document_id retries_left failure_reason s =
    if ltb 0 retries_left then s else record s {
      dead_letters =
          s.dead_letters
          ++ record {
            source_job_id = job_id;
            document_id = document_id;
            failure_reason = failure_reason;
          }
            ∷ [];
      documents = failed_row b document_id failure_reason s.documents;
    }

-- The new job has an id that RQ makes up.
unfoldable pub requeue_failed_job : Broker → String → ℕ → State → State
requeue_failed_job b new_id document_id s = record s {
  queue =
      s.queue
      ++ record { id = new_id; document_id = document_id; retries_left = b.max_retries } ∷ [];
}
