-- ===== src/Session/Hotkeys.antt =====
-- `wire_hotkey` of app/session/session_manager.py: the handlers that it registers.
use app_stt_aio.Base.{Option, String, none, some}
use app_stt_aio.Base.Result.{Result, ok, err}
use app_stt_aio.Audio.Batch.{Convert}
use app_stt_aio.Session.State.{
  SessionSource, SessionError, Fresh, Method, audio, not_found, state_error, busy_ignored,
  busy_queued,
}
use app_stt_aio.Session.Requests.{begin}
use app_stt_aio.Session.Cancel.{cancel}
use app_stt_aio.Session.Stop.{stop}

abbrev pub keep_started : Result SessionError String → Method (Unit {0})
keep_started (ok id) m = (ok tt, record m { hotkey_session_id = some id })
keep_started (err busy_ignored) m = (ok tt, m)
keep_started (err busy_queued) m = (ok tt, m)
keep_started (err (audio e)) m = (ok tt, m)
keep_started (err e) m = (err e, m)

unfoldable pub on_record_start : Fresh → Method (Unit {0})
on_record_start f m = let (r, m') = begin SessionSource.batch f none m in keep_started r m'

-- What `_hotkey_stop` catches, with its `finally`.
abbrev pub release_hotkey : Result SessionError (Unit {0}) → Method (Unit {0})
release_hotkey (ok u) m = (ok tt, record m { hotkey_session_id = none })
release_hotkey (err not_found) m = (ok tt, record m { hotkey_session_id = none })
release_hotkey (err state_error) m = (ok tt, record m { hotkey_session_id = none })
release_hotkey (err (audio e)) m = (ok tt, record m { hotkey_session_id = none })
release_hotkey (err e) m = (err e, record m { hotkey_session_id = none })

abbrev pub hotkey_stop_of : Convert → Option String → Method (Unit {0})
hotkey_stop_of convert none m = (ok tt, m)
hotkey_stop_of convert (some id) m = let (r, m') = stop convert id m in release_hotkey r m'

-- `_hotkey_stop`, for both `on_record_stop` and `on_auto_send`.
unfoldable pub hotkey_stop : Convert → Method (Unit {0})
hotkey_stop convert m = hotkey_stop_of convert m.hotkey_session_id m

abbrev pub first_set : Option String → Option String → Option String
first_set (some id) other = some id
first_set none other = other

-- An audio error is not caught here.
abbrev pub release_cancel : Result SessionError (Unit {0}) → Method (Unit {0})
release_cancel (ok u) m = (ok tt, record m { hotkey_session_id = none })
release_cancel (err not_found) m = (ok tt, record m { hotkey_session_id = none })
release_cancel (err state_error) m = (ok tt, record m { hotkey_session_id = none })
release_cancel (err e) m = (err e, record m { hotkey_session_id = none })

abbrev pub hotkey_cancel_of : Option String → Method (Unit {0})
hotkey_cancel_of none m = (ok tt, m)
hotkey_cancel_of (some id) m = let (r, m') = cancel id m in release_cancel r m'

unfoldable pub on_cancel : Method (Unit {0})
on_cancel m =
    hotkey_cancel_of
      (first_set m.hotkey_session_id (first_set m.recording_session_id m.processing_session_id)) m
