-- ===== src/Session/Stop.antt =====
-- `stop` of app/session/session_manager.py. What the worker does with the audio and with
-- `press_enter` is the pipeline's; here the session is handed over to it.
use app_stt_aio.Base.{Bytes, Option, String, if◌then◌else◌, nat_eq, none, some, string_eq}
use app_stt_aio.Base.Dict.{lookup}
use app_stt_aio.Base.Result.{Result, ok, err}
use app_stt_aio.Audio.Batch.{AudioError, Convert}
use app_stt_aio.Audio.Capture
use app_stt_aio.Audio.Capture.{AudioCapture}
use app_stt_aio.Session.State.{
  SessionSource, SessionStatus, RuntimeSession, Method, audio, not_found, not_implemented,
  state_error, eq_id, clear_handle_of, pop_session, set_status,
}
use app_stt_aio.Session.Worker.{start_processing}

abbrev pub finish_realtime :
    String → Result AudioError (Unit {0}) × AudioCapture → Method (Unit {0})
finish_realtime id (err e, c) m = (err (audio e), record m { capture = c })
finish_realtime id (ok u, c) m =
    let m' = clear_handle_of (lookup id m.sessions) id (record m { capture = c }) in
    (
      ok tt,
      pop_session id (set_status id SessionStatus.done (record m' { recording_session_id = none })),
    )

unfoldable pub stop_realtime : String → RuntimeSession → Method (Unit {0})
stop_realtime id r m =
    if eq_id id m.recording_session_id
    then finish_realtime id
        (elim r.capture_handle [
          | none ↦ (ok tt, m.capture)
          | some h ↦ Capture.stop_stream h m.capture
        ])
        m
    else (err state_error, m)

abbrev pub finish_batch : String → Result AudioError Bytes × AudioCapture → Method (Unit {0})
finish_batch id (err e, c) m = (
  err (audio e),
  set_status id SessionStatus.error
      (pop_session id (record m { capture = c; recording_session_id = none })),
)
finish_batch id (ok pcm, c) m =
    let m' = clear_handle_of (lookup id m.sessions) id (record m { capture = c }) in
    (ok tt, start_processing id (record m' { recording_session_id = none }))

unfoldable pub stop_batch : Convert → String → RuntimeSession → Method (Unit {0})
stop_batch convert id r m =
    if eq_id id m.recording_session_id
    then elim r.capture_handle [
      | none ↦ (err state_error, m)
      | some h ↦ finish_batch id (Capture.stop_batch convert h m.capture) m
    ]
    else (err state_error, m)

abbrev pub stop_source : Convert → String → RuntimeSession → SessionSource → Method (Unit {0})
stop_source convert id r SessionSource.realtime m = stop_realtime id r m
stop_source convert id r SessionSource.batch m = stop_batch convert id r m
stop_source convert id r SessionSource.remote m = (err not_implemented, m)

abbrev pub stop_runtime : Convert → String → Option RuntimeSession → Method (Unit {0})
stop_runtime convert id none m = (err not_found, m)
stop_runtime convert id (some r) m = stop_source convert id r r.source m

unfoldable pub stop : Convert → String → Method (Unit {0})
stop convert id m = stop_runtime convert id (lookup id m.sessions) m
