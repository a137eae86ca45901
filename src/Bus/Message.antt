-- ===== src/Bus/Message.antt =====
-- `MessageType` and `Message` of tugas-3/src/communication/message_passing.py.
use Prim.Native.String.{String}
use text.Mathlib.Text.{◌==◌}
use sistem_paralel_terdistri.Common.{Bool, ℕ}

pub data MessageType : Type 0 where
  request_vote request_vote_response append_entries append_entries_response : MessageType
  lock_request lock_grant lock_release lock_deny deadlock_check deadlock_response : MessageType
  queue_enqueue queue_dequeue queue_ack queue_replicate : MessageType
  cache_read cache_write cache_invalidate cache_fetch cache_response cache_state_change :
      MessageType
  heartbeat heartbeat_ack error ack : MessageType

-- Equality of strings.
abbrev pub same_text : String → String → Bool
same_text s t = s == t

-- `msg_type.value`
unfoldable pub value : MessageType → String
value request_vote = "request_vote"
value request_vote_response = "request_vote_response"
value append_entries = "append_entries"
value append_entries_response = "append_entries_response"
value lock_request = "lock_request"
value lock_grant = "lock_grant"
value lock_release = "lock_release"
value lock_deny = "lock_deny"
value deadlock_check = "deadlock_check"
value deadlock_response = "deadlock_response"
value queue_enqueue = "queue_enqueue"
value queue_dequeue = "queue_dequeue"
value queue_ack = "queue_ack"
value queue_replicate = "queue_replicate"
value cache_read = "cache_read"
value cache_write = "cache_write"
value cache_invalidate = "cache_invalidate"
value cache_fetch = "cache_fetch"
value cache_response = "cache_response"
value cache_state_change = "cache_state_change"
value heartbeat = "heartbeat"
value heartbeat_ack = "heartbeat_ack"
value error = "error"
value ack = "ack"

pub record Message (P : Type 0) : Type 0 where
  pub msg_id : ℕ
  pub msg_type : MessageType
  pub sender_id : ℕ
  pub receiver_id : ℕ
  pub payload : P
  pub timestamp : ℕ
  pub term : ℕ

-- `Message.create`; `now` and `uuid` are what `time.time()` and `uuid.uuid4()` give.
unfoldable pub create : {P : Type 0} → ℕ → ℕ → MessageType → ℕ → ℕ → P → ℕ → Message P
create now uuid msg_type sender_id receiver_id payload term = record {
  msg_id = uuid;
  msg_type = msg_type;
  sender_id = sender_id;
  receiver_id = receiver_id;
  payload = payload;
  timestamp = now;
  term = term;
}
