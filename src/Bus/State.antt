-- ===== src/Bus/State.antt =====
-- `MessageBus` of tugas-3/src/communication/message_passing.py: inboxes, handlers and partitions.
-- `H` stands for the handlers, which the bus only stores and calls.
use Prim.Native.String.{String}
use sistem_paralel_terdistri.Common.{
  Bool, Dict, List, Option, [], add, contains, false, get_or, if◌then◌else◌, insert, keys, length,
  lookup, ltb, member, none, not, some, true, ℕ, ◌&&◌, ◌++◌, ◌==◌, ◌||◌, ◌∷◌,
}
use sistem_paralel_terdistri.Bus.Message.{Message, MessageType, same_text, value}

pub record MessageBus (P H : Type 0) : Type 0 where
  pub channels : Dict (List (Message P))
  pub handlers : Dict (List (String × H))
  pub partitions : List ℕ

-- `asyncio.Queue(maxsize=10000)`
abbrev pub maxsize : ℕ
maxsize = 10000

-- `handlers[msg_type] = handler`: a `MessageType` is a `str`, and is equal to its value.
abbrev pub set_handler : {H : Type 0} → String → H → List (String × H) → List (String × H)
set_handler t h [] = (t, h) ∷ []
set_handler t h ((s, g) ∷ hs) = if same_text s t then (t, h) ∷ hs else (s, g) ∷ set_handler t h hs

-- `handlers.get(msg_type)`
abbrev pub get_handler : {H : Type 0} → String → List (String × H) → Option H
get_handler t [] = none
get_handler t ((s, g) ∷ hs) = if same_text s t then some g else get_handler t hs

-- `self._partitions.update(node_ids)`
abbrev pub update : List ℕ → List ℕ → List ℕ
update [] s = s
update (n ∷ ns) s = update ns (add n s)

-- What happened to messages: `accepted` by a queue, `received` by a node, `called` with a handler.
pub data Event (P H : Type 0) : Type 0 where
  accepted : Message P → Event P H
  received : ℕ → Message P → Event P H
  called : H → Message P → Event P H

-- The calls of the bus; `broadcast` has the uuid that the copy for a node draws.
pub data Call (P H : Type 0) : Type 0 where
  register_node : ℕ → Call P H
  register_handler : ℕ → MessageType → H → Call P H
  partition_nodes : List ℕ → Call P H
  heal_partition : Call P H
  send : Message P → Call P H
  receive : ℕ → Call P H
  broadcast : (ℕ → ℕ) → Message P → List ℕ → Call P H
  dispatch : ℕ → Call P H

abbrev pub copy_for : {P : Type 0} → ℕ → ℕ → Message P → Message P
copy_for uuid node m = record m { msg_id = uuid; receiver_id = node }

module _ {P H : Type 0} where
  unfoldable pub new_bus : MessageBus P H
  new_bus = record { channels = []; handlers = []; partitions = [] }

  unfoldable pub do_register_node : ℕ → MessageBus P H → MessageBus P H
  do_register_node node b =
      if contains node b.channels
      then b
      else record b { channels = insert node [] b.channels; handlers = insert node [] b.handlers }

  unfoldable pub do_register_handler : ℕ → MessageType → H → MessageBus P H → MessageBus P H
  do_register_handler node t h b = record b {
    handlers =
        insert node (set_handler (value t) h (get_or (lookup node b.handlers) [])) b.handlers;
  }

  unfoldable pub do_partition : List ℕ → MessageBus P H → MessageBus P H
  do_partition ns b = record b { partitions = update ns b.partitions }

  unfoldable pub heal : MessageBus P H → MessageBus P H
  heal b = record b { partitions = [] }

  -- `put_nowait` on the receiver's queue, if it is not full.
  unfoldable pub put_nowait : Message P → MessageBus P H → MessageBus P H × Bool
  put_nowait m b =
      let inbox = get_or (lookup m.receiver_id b.channels) [] in
      if ltb (length inbox) maxsize
      then (record b { channels = insert m.receiver_id (inbox ++ m ∷ []) b.channels }, true)
      else (b, false)

  -- `send` with no delay, as all its callers have it.
  unfoldable pub do_send : Message P → MessageBus P H → MessageBus P H × Bool
  do_send m b =
      if member m.sender_id b.partitions || member m.receiver_id b.partitions
      then (b, false)
      else if not (contains m.receiver_id b.channels)
      then (b, false)
      else put_nowait m b

  -- The head of the queue when `receive` ends; `none` after its timeout.
  unfoldable pub do_receive : ℕ → MessageBus P H → MessageBus P H × Option (Message P)
  do_receive node b = elim (lookup node b.channels) [
    | none ↦ (b, none)
    | some [] ↦ (b, none)
    | some (m ∷ ms) ↦ (record b { channels = insert node ms b.channels }, some m)
  ]

  abbrev pub sent_events : Bool → Message P → List (Event P H)
  sent_events ok m = if ok then accepted m ∷ [] else []

  -- `asyncio.gather` runs the tasks in the order in which they were made.
  unfoldable pub do_broadcast :
      (ℕ → ℕ) → Message P → List ℕ → List ℕ → MessageBus P H → MessageBus P H × List (Event P H)
  do_broadcast uuids m exclude [] b = (b, [])
  do_broadcast uuids m exclude (node ∷ nodes) b =
      let c = copy_for (uuids node) node m in
      let (b', ok) = do_send c b in
      let (b1, es) = do_broadcast uuids m exclude nodes b' in
      let rest = do_broadcast uuids m exclude nodes b in
      if not (node == m.sender_id) && not (member node exclude)
      then (b1, sent_events ok c ++ es)
      else rest

  -- One round of `dispatch_messages`: the handler of the message's type, where there is one.
  unfoldable pub route : ℕ → Message P → MessageBus P H → List (Event P H)
  route node m b = elim (get_handler (value m.msg_type) (get_or (lookup node b.handlers) [])) [
    | none ↦ []
    | some h ↦ called h m ∷ []
  ]

  unfoldable pub do_dispatch : ℕ → MessageBus P H → MessageBus P H × List (Event P H)
  do_dispatch node b = elim (do_receive node b).1 [
    | none ↦ ((do_receive node b).0, [])
    | some m ↦ ((do_receive node b).0, received node m ∷ route node m b)
  ]

  unfoldable pub run : Call P H → MessageBus P H → MessageBus P H × List (Event P H)
  run (register_node n) b = (do_register_node n b, [])
  run (register_handler n t h) b = (do_register_handler n t h b, [])
  run (partition_nodes ns) b = (do_partition ns b, [])
  run heal_partition b = (heal b, [])
  run (send m) b = let (b', ok) = do_send m b in (b', sent_events ok m)
  run (receive n) b = elim (do_receive n b).1 [
    | none ↦ ((do_receive n b).0, [])
    | some m ↦ ((do_receive n b).0, received n m ∷ [])
  ]
  run (broadcast uuids m exclude) b = do_broadcast uuids m exclude (keys b.channels) b
  run (dispatch n) b = do_dispatch n b

  unfoldable pub run_all : List (Call P H) → MessageBus P H → MessageBus P H × List (Event P H)
  run_all [] b = (b, [])
  run_all (c ∷ cs) b = let (b', es) = run c b in let (b1, fs) = run_all cs b' in (b1, es ++ fs)
