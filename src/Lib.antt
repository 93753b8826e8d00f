-- ===== src/Lib.antt =====
-- A verification development for an X-ray screening system: scanners send frames, a detector
-- marks regions, a language model explains them, an operator decides, and the decision becomes
-- training labels. The service keeps each scan in a state machine in PostgreSQL and every action
-- in a chained audit log.
--
-- Parts and files (paths from the repository's root):
--   Contracts: the messages of contracts/v1 (common.py, acquisition.py, detection.py, verdict.py,
--     feedback.py). A pydantic validator is a function into a result; each message class is a
--     record. Contracts/*/... hold what the validators accept, as predicates on messages.
--   State: app/state/machine.py over the tables of app/db/models.py, and app/state/thresholds.py.
--     State/Machine is the transition table; State/Session a database, with what one request's
--     session has loaded; State/Store the methods of `PostgresScanStore`. Another request may
--     have committed since a row was loaded: nothing ties `cached` to `db`, so every interleaving
--     of requests is covered. A raised error ends the request and commits nothing.
--     A detection or verdict that does not fit its columns, or a verdict's id that is there, is an
--     error of the database; the primary key of feedback is left out.
--   Audit: app/audit/sink.py. `record` appends to a list of rows in the order of `seq`, and
--     `verify_chain` replays it. HMAC-SHA256, `json.dumps` and the texts of ids and times are the
--     record `Codec`; what is relied on of them is the record `IsSound`, and that the messages of
--     two logs do not collide.
--   Api: app/auth/dependencies.py, and the review and decision endpoints of app/api/v1/scans.py.
--     Api/Lifecycle has the step relation of all requests that change scans, in any order.
--     Api/Hops are app/api/v1/detect.py, verdict.py and feedback.py with the sink of
--     app/datalayer_wiring.py, Api/Hub is the notification hub of app/api/v1/ws.py,
--     Api/Admin the login, the accounts and the thresholds of app/api/v1/admin.py with the tokens
--     of app/auth/backend.py.
--   Datalayer: datalayer/labelstore.py (Labels), quality.py (Quality), balance.py (Balance),
--     retrain.py (Retrain) and active_learning.py (Loop), from a feedback to the label queue and
--     the retraining jobs; ingestion.py (Ingestion), from raw frames to a message; storage.py
--     (Storage), the encrypted store of their bytes; versioning.py (Versions), frozen snapshots of
--     the queue. `uuid4()` and the clock are arguments.
--   Vlm: vlm/guard.py (Guard, with its regular expressions in Pattern), vlm/prompts.py (Prompts),
--     vlm/generator.py (Generator) and vlm/screen.py (Screen). Texts are lists of code points. The
--     tables of Unicode, IEEE arithmetic on scores, and the model's answer to its n-th call are
--     records of parameters.
--   Detector: detector/taxonomy.py (Taxonomy) and detector/serving/adapter.py (Adapter), from the
--     raw boxes of a model, which is a parameter, to a result of the contract.
--     Detector/Evaluation is detector/eval/recall_eval.py, and Detector/Evaluation/Gate the gate of
--     detector/eval/accuracy_delta.py before a new model is shipped.
--   Acquisition: acquisition/watchdog.py (Watchdog), where the driver's answers to the
--     n-th call are a parameter, and acquisition/pipeline.py (Pipeline), from a bundle to a POST.
--   Camera: camera/driver.py (Motion), camera/stream.py (Stream, the reader, and Analyzer, the
--     continuous analysis) and the capture of app/api/v1/camera.py (Capture). OpenCV is a record of
--     parameters. A turn of a reader's loop is one step, and the turns are a list.
--   Keys: app/security_keys.py, from a configured secret to key bytes.
--   Base: shared names, lists over the native numbers, results, membership.
--   Witnesses: concrete messages, databases, logs and drivers for the theorems.
--
-- Numbers: Python's integers are natural numbers, since all that is modelled is non-negative. A
-- finite float in [0, 1] is its multiple of 2^-1074, so comparisons are exact. Times are counts of
-- ticks. `monitored_read` runs on fuel, the number of turns of its loop, since a scanner that fails
-- for ever keeps it going for ever; `n + 1` turns are enough when the n-th read succeeds. All other
-- loops are structural recursion, `_reconnect` on its budget of attempts.
--
-- Not modelled: HTTP, ORM and file I/O, the drivers of the scanners, the neural
-- networks and their serving, the servers of the language model, settings, metrics, deployment and the web
-- console; of the endpoints, those that only read or that are not named above.
pub mod Base
pub mod Contracts
pub mod State
pub mod Audit
pub mod Api
pub mod Datalayer
pub mod Acquisition
pub mod Vlm
pub mod Detector
pub mod Keys
pub mod Camera
mod Witnesses
