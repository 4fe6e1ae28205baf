-- ===== src/Session/Recordings.antt =====
-- `_begin_batch` and `_begin_realtime` of app/session/session_manager.py.
use app_stt_aio.Base.{Option, String, some, ℕ, nat_eq, string_eq}
use app_stt_aio.Base.Dict.{insert}
use app_stt_aio.Base.Result.{Result, ok, err}
use app_stt_aio.Audio.Batch.{AudioError, BatchRecording}
use app_stt_aio.Audio.Capture
use app_stt_aio.Audio.Capture.{AudioCapture}
use app_stt_aio.Session.State.{
  SessionSource, SessionStatus, Manager, Fresh, Method, audio, create_session, set_status,
  mode_or_active,
}

-- The recording that the capture has started becomes the manager's.
unfoldable pub enter_recording : String → SessionSource → Option String → ℕ → Manager → Manager
enter_recording id source mode_id handle m = set_status id SessionStatus.recording (record m {
  sessions =
      insert id
        (record {
          session_id = id;
          source = source;
          mode_id = mode_id;
          capture_handle = some handle;
        })
        m.sessions;
  recording_session_id = some id;
})

abbrev pub handle_of : Result AudioError BatchRecording → Result AudioError ℕ
handle_of (ok r) = ok r.handle_id
handle_of (err e) = err e

-- `except AudioError: set_status(ERROR); raise`, else the session records.
unfoldable pub after_start :
    String → SessionSource → Option String → Result AudioError ℕ → AudioCapture → Method String
after_start id source mode_id (ok handle) c m =
    (ok id, enter_recording id source mode_id handle (record m { capture = c }))
after_start id source mode_id (err e) c m =
    (err (audio e), set_status id SessionStatus.error (record m { capture = c }))

unfoldable pub begin_batch : Fresh → Option String → Method String
begin_batch f mode m =
    let mode_id = mode_or_active mode m in
    let m' = create_session f.id SessionSource.batch mode_id SessionStatus.recording m in
    let (r, c) = Capture.start_batch f.opened f.started m'.capture in
    after_start f.id SessionSource.batch mode_id (handle_of r) c m'

unfoldable pub begin_realtime : Fresh → Option String → Method String
begin_realtime f mode m =
    let mode_id = mode_or_active mode m in
    let m' = create_session f.id SessionSource.realtime mode_id SessionStatus.recording m in
    let (r, c) = Capture.start_stream f.opened f.started m'.capture in
    after_start f.id SessionSource.realtime mode_id r c m'
