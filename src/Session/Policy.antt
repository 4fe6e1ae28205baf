-- ===== src/Session/Policy.antt =====
-- app/session/queue_policy.py: what `begin` does while the manager is busy.
use app_stt_aio.Base.{
  Bool, Option, String, if◌then◌else◌, nat_eq, none, not, some, string_eq, ◌&&◌, ◌==◌,
}

pub data QueuePolicy : Type 0 where
  queue cancel ignore : QueuePolicy

pub data QueueAction : Type 0 where
  accept queue ignore cancel_current : QueueAction

-- `QueuePolicy(policy)`; `none` is its `ValueError`.
unfoldable pub parse_policy : String → Option QueuePolicy
parse_policy policy =
    if policy == "queue"
    then some QueuePolicy.queue
    else if policy == "cancel"
    then some QueuePolicy.cancel
    else if policy == "ignore"
    then some QueuePolicy.ignore
    else none

abbrev pub act : QueuePolicy → QueueAction
act QueuePolicy.ignore = QueueAction.ignore
act QueuePolicy.cancel = cancel_current
act QueuePolicy.queue = QueueAction.queue

abbrev pub act_on : Option QueuePolicy → Option QueueAction
act_on none = none
act_on (some p) = some (act p)

-- The policy is read only when something is recording or processing.
unfoldable pub resolve_begin_action : String → Bool → Bool → Option QueueAction
resolve_begin_action policy is_recording is_processing =
    if not is_recording && not is_processing then some accept else act_on (parse_policy policy)
