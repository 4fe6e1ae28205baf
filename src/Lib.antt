-- ===== src/Lib.antt =====
-- Verification of the core of a dictation program: it records speech, hands it to a pipeline of
-- recognition and text processing, and injects the text; a phone can send audio to it.
--
-- The parts and their files:
--   Gateway/Chunks      remote/gateway/chunks.py: chunked uploads. `add_part` and `create_upload_id` are
--                       the methods; their locks make each of them one step.
--   Gateway/Pairing     remote/gateway/pairing.py: PIN, bearer tokens and lockout, one function for each
--                       method.
--   Audio/Vad           core/audio/vad.py, `SegmentTracker`: frames of speech become segments.
--   Audio/Batch         core/audio/capture_batch.py: a recording, and the capture that owns it.
--   Audio/Stream        core/audio/stream_capture.py: blocks of a stream become segments; a client of
--                       Audio/Vad.
--   Audio/Capture       core/audio/audio_capture.py: the facade over a recording or a stream; a client of
--                       Audio/Batch.
--   Session             app/session: `SessionManager`, which owns the capture, the sessions that run, the
--                       queue of requests and the threads that process. State has its fields, with the
--                       sessions table of core/store; Recordings, Cancel, Worker, Stop, Requests and
--                       Hotkeys have its methods by name; Policy is queue_policy.py. Invariant,
--                       CancelKeeps, StepKeeps, CancelKept, Reachable, Races and Queue are proofs.
--   Modes               core/modes with core/store/repos/mode_repo.py: presets of the pipeline, their
--                       validation and the one default. Builtins has the modes of defaults.py, Choice is
--                       how a session gets its mode; Wf, Builtins/Keeps and Defaults are proofs.
--   Pipeline            core/pipeline: a run from audio to text. Stages has the stages and `run`, Reprocess
--                       has `reprocess`; Plan, Steps, Runs and Rerun are proofs. `Engine` is the run
--                       with what can be seen of it.
--   Hotkey              app/hotkey: Binding, Debounce and Conflict are the files of these names, Manager has
--                       the methods of `HotkeyManager`, and Keys its handler of key events; Signals,
--                       Listening and Repeats are proofs.
--   Inject              core/inject: Encoding is text_encoding.py, Keyboard is unicode_input.py and
--                       foreground.py, Clipboard is clipboard_input.py, Injector is injector.py, and
--                       Realtime is realtime.py; Chunks, Typed, Locking, Partial and Outcomes are
--                       proofs.
--   Updater             core/updater: Version is version.py, Manifest is manifest.py and checker.py,
--                       Download is downloader.py and verify.py, and Installed is a proof.
--   Textproc            core/textproc: Normalize is normalize_ko.py, Rules is rules.py, dictionary.py and
--                       snippets.py, and Processor is processor.py; Idempotence, Order and Caches are proofs.
--   Config              app/config: Schema is schema.py, Migration is migration.py, and Settings is the cache
--                       of config.py as it is filled at the start; Present, RepairSteps and Repaired are
--                       proofs.
--   Base                names and lemmas that the parts share: dictionaries, results, text.
-- Each component has its tests in a module Tests.
--
-- State is passed on explicitly. A method gives the pair of its result and the new state; an exception
-- is an error value. A `dict` is an association list in the order of insertion. Numbers are natural
-- numbers and times are whole seconds or milliseconds; where the code subtracts from a clock reading, the
-- comparison is written with a sum. What comes from outside is an argument: clock readings, random
-- draws, fresh ids, what a device does, the conversion of audio, and what a run of the pipeline came to.
-- The thread of a session is a sequence of steps between which any other method may run; each method of
-- `SessionManager` is taken as one step, which is an assumption, as most of them hold no lock. No
-- function here needs fuel: every loop goes over a list, or counts down attempts.
--
-- Not modelled: the conversion of audio, the detectors of speech, the calls of Windows, the start of
-- an installer, model downloads, the SQL of the store, changes of settings while the
-- program runs, the user interface, and the clients of recognition and language model services.
pub mod Base
pub mod Gateway
pub mod Audio
pub mod Session
pub mod Modes
pub mod Inject
pub mod Updater
pub mod Textproc
pub mod Config
pub mod Pipeline
pub mod Hotkey
