-- ===== src/Lib.antt =====
-- VoiceStock: a Raspberry Pi records a spoken stock order, a PC transcribes and interprets it, and the
-- Raspberry Pi validates the answer, shows it to the operator and resolves it on confirmation.
--
-- Parts, and how they interact:
-- - Contract: src/shared/operation_contract and src/pi/operation_contract. Payload and Rejection hold
--   the types; Normalize and Catalog `normalize_attribute` and `match_products`; Resolver the check of
--   `InMemoryProductResolver`; Structure `validate_structure`; Validator `OperationValidator`, which
--   runs the structural stage and then the resolver.
-- - Pc: src/pc. Match (audio/catalog.py) is the PC's own copy of the matching rule, with the loading of
--   its catalog; Draft
--   (operation_contract/mapper.py) maps the model's draft to the contract; Service (interpretation)
--   asks the provider; Pipeline (audio/pipeline.py) runs transcriber, service, mapper and matching.
-- - Envelope and Json: src/shared/communication/contracts.py, and JSON values.
-- - Pending: src/pi/pending_operation. Response reads the PC's envelope through the validator;
--   Operation and View build what the operator sees; Resolution holds the typed results; Gateway
--   confirms and cancels against a slot and an executor; Flow owns the phase and the pending operation;
--   Slot makes the flow the slot of the gateway, as its constructor does; Worker adds the files, the
--   sender (src/pi/push_to_talk/sender.py) and the pool.
-- - Talk: src/pi/push_to_talk/controller.py, the worker that turns button and timer events into
--   captures and callbacks.
-- - Audio: src/pi/audio. Buffer, Devices and Backend are the queue, the choice of the device and the
--   stream of sounddevice_backend.py; Capture is `AudioCapture` of capture.py, its worker in the root
--   and in Worker, `start` and `stop` in Control.
-- - Client: src/pi/communication/client.py, which reads what Pc.Server, the routes of
--   src/pc/communication, answers. Client.Chain joins both machines.
-- - Web: src/pi/web, the page's requests over the gateway and the flow.
-- - Runtime: `build_runtime` of src/pi/runtime.py, which gives the controller the callbacks of the flow.
-- - Store: Stock is src/pi/inventory/stock.py over the tables of src/pi/storage/migrations.py;
--   Migrations `apply_migrations` with its transaction; Opening the rest of src/pi/storage.
-- - Base: shared helpers. Tests: concrete inputs.
--
-- State is passed explicitly. A method of the flow that holds its lock is one step; a request to the
-- gateway, which holds one lock throughout, is one step of the gateway, with the steps of other threads
-- during its executor made explicit. `Outcome` is a value or a Python exception. There is no fuel: every
-- loop of the source that is modelled runs over a list.
--
-- Parameters, for what is not in the repository: the tables of the Unicode database; pydantic's
-- `model_dump` and `model_validate`, the latter without the validators of the repository's classes, which
-- are modelled; JSON parsing and rendering; `wave`; the answers of httpx; the
-- transcriber and the providers; the id factory and `uuid4`; whether the thread pool takes a job; what
-- the removal of a recording, PortAudio, the file system and the statements of a migration answer; and the executor. The controller
-- (Talk) takes what a capture returns or raises as an argument, too.
--
-- Waits of the capture are where the actions of its worker are given, and their result is read from the
-- state after them.
--
-- Left out: diagnostic `detail` texts and log lines; the operator's messages, which are a data type; the
-- duration and format of a recording; the event queue, timers and joins of the controller; reading
-- and parsing files; the SQL engine, whose answers on stock records are written out from the statements.
-- Not modelled: settings and entry points, serving, and everything that talks to GPIO
-- or an external service.
pub mod Base
pub mod Json
pub mod Audio
pub mod Contract
pub mod Pc
pub mod Envelope
pub mod Client
pub mod Pending
pub mod Talk
pub mod Runtime
pub mod Web
pub mod Store
pub mod Tests
