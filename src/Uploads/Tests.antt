-- ===== src/Uploads/Tests.antt =====
-- Uploads of a user who has one session.
use omni_ai_v.Prelude.{
  ℕ, ◌≡◌, refl, String, Bool, true, false, Option, none, some, List, [], ◌∷◌, arith, lower, strip,
  occurrences, before, split, decimal,
}
use omni_ai_v.Prelude
use omni_ai_v.Rows
use omni_ai_v.Workspace.{ChatSession}
use omni_ai_v.Ingestion.Worker.{Pipeline, raised}
use omni_ai_v.Ingestion.Queue.{Broker, connected}
use omni_ai_v.Uploads
use omni_ai_v.Uploads.{Env, State, Params, receive, new_row}
use omni_ai_v.Uploads.Start.{upload_document}
use omni_ai_v.Uploads.Names
use omni_ai_v.Uploads.Names.{sanitize_upload_filename}
use omni_ai_v.Uploads.Names.Safety.{IsSafe, sanitize_upload_filename-IsSafe}
use omni_ai_v.Uploads.Validation
use omni_ai_v.Uploads.Validation.{UploadFile, Result, ok, http_exception, validate_document_upload}
use omni_ai_v.Uploads.Security
use omni_ai_v.Uploads.Security.{Probe, Scan, finished}
use omni_ai_v.Uploads.Receipt.{IsReceived, receive-IsReceived}
use omni_ai_v.Uploads.Dispatch.{IsStarted, dispatch_error, upload_document-IsStarted}

abbrev same_text : String → String
same_text s = s

sanitize_upload_filename-IsSafe_example : IsSafe "pass_wd_.txt"
unfolding sanitize_upload_filename Names.cleaned_name Names.basename Names.replace_unsafe
    Names.is_safe strip Prelude.lstrip Prelude.rstrip Prelude.is_space Names.splitext
    Names.utf8_length
sanitize_upload_filename-IsSafe_example =
    sanitize_upload_filename-IsSafe same_text "../../etc/pass<<wd>.txt" {name = "pass_wd_.txt"} refl

abbrev pdf : UploadFile
pdf = record {
  filename = "notes.pdf";
  content_type = "application/pdf";
  body = 0x25 ∷ 0x50 ∷ 0x44 ∷ 0x46 ∷ 0x2d ∷ [];
}

abbrev probe : Probe
probe = record {
  is_zip = false;
  archive = none;
  is_pdf = true;
  sample = some (record { has_javascript = false; objects = 12 });
  scan = finished 0 "";
  says_found = λ output. false;
}

abbrev pipeline : Pipeline
pipeline = record {
  load = λ path. raised "no loader";
  lower = lower;
  split = λ parts. parts;
  max_chunks = 100;
  max_text_chars = 5000;
  add_batch_size = 1;
  encode = λ texts. none;
  add = λ start. none;
  removable = λ path. true;
  failure_is_saved = true;
}

abbrev broker : Broker
broker = record {
  worker_count = connected 1;
  now = 9;
  max_retries = 3;
  job_id = λ i index. "ingest-doc";
  exhausted_message = λ reason. reason;
  enqueue_error = λ index i. none;
}

abbrev env : Env
env = record {
  nfkc = same_text;
  upper = same_text;
  max_upload_bytes = 10;
  ingest_in_background = true;
  ingest_uses_rq_queue = true;
  scan = record { enabled = true; required = true };
  probe = λ path body. probe;
  upload_path = λ user_id session_id name. name;
  quarantine_path = λ user_id session_id name. name;
  writes = true;
  moves = true;
  now = 9;
  broker = broker;
  pipeline = pipeline;
}

abbrev session : ChatSession
session = record {
  id = 4;
  user_id = 7;
  workspace_id = "default";
  title = "notes";
  is_pinned = false;
  folder_id = none;
}

abbrev state : State
state = record {
  sessions = session ∷ [];
  collections = [];
  next_collection = 1;
  next_document = 1;
  store = record { documents = []; chunks = []; files = λ path. false; events = [] };
  jobs = record {
    documents = [];
    queue = [];
    dead_letters = [];
    threads = [];
    recovery_started = [];
  };
  quarantined = λ path. false;
  audits = [];
  background_tasks = [];
}

abbrev params : Params
params = record { workspace_id = "default"; collection_id = none; session_id = some 4 }

receive-IsReceived_example : IsReceived 7 state (receive env 7 pdf params state)
receive-IsReceived_example = receive-IsReceived env 7 pdf params state

upload_document-IsStarted_example :
    IsStarted 1
      (dispatch_error env 1)
      (receive env 7 pdf params state).1
      (upload_document env 7 pdf params state)
unfolding receive validate_document_upload Validation.check_type Validation.check_content
    Validation.allowed_extensions Validation.blocked_extensions Validation.extension_content_types
    sanitize_upload_filename Names.cleaned_name Names.basename Names.replace_unsafe Names.is_safe
    strip lower before Prelude.lstrip Prelude.rstrip Prelude.is_space Names.splitext Names.suffix
    Names.utf8_length Uploads.is_valid_form Uploads.choose_collection Uploads.secure
    Security.process_upload_security Security.validate_extension Security.validate_mime
    Security.check_zip_bomb Security.check_pdf_sanity Security.scan_with_clamav
    Security.scan_verdict Rows.find_first
upload_document-IsStarted_example =
    upload_document-IsStarted env 7 pdf params state (new_row env 7 params 1 4 "notes.pdf" state)
      refl refl (omega arith)
