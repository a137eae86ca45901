-- ===== src/Locks/Manager.antt =====
-- The state machine of `LockManagerNode` (tugas-3/src/nodes/lock_manager.py): the handlers that
-- `_apply_command` runs on the committed commands. `now` is the clock's reading during a command
-- and `uuid` the request id that the command would draw.
use sistem_paralel_terdistri.Common.{
  ℕ, ◌+◌, Bool, true, false, not, ◌&&◌, ◌||◌, List, [], ◌∷◌, ◌++◌, Option, none, some, Dict, lookup,
  contains, insert, erase, keys, add, discard, get_or, ◌==◌, if◌then◌else◌,
}
use sistem_paralel_terdistri.Locks.State.{
  LockMode, shared, LockHolder, LockRequest, LockState, empty_lock, is_held, lock_mode, mode_is,
  same_mode,
}
use sistem_paralel_terdistri.Locks.Detector.{
  DeadlockDetector, no_waits, add_wait, remove_client, set_client_age,
}

pub record LockManager : Type 0 where
  pub default_lease : ℕ
  pub locks : Dict LockState
  pub client_locks : Dict (List ℕ)
  pub deadlock_detector : DeadlockDetector

abbrev pub init : ℕ → LockManager
init lease = record {
  default_lease = lease;
  locks = [];
  client_locks = [];
  deadlock_detector = no_waits;
}

abbrev pub new_holder : ℕ → ℕ → LockMode → ℕ → LockHolder
new_holder now client mode lease = record {
  client_id = client;
  mode = mode;
  acquired_at = now;
  lease_until = now + lease;
}

-- `self.client_locks[client]`, of a `defaultdict(set)`.
abbrev pub locks_of : Dict (List ℕ) → ℕ → List ℕ
locks_of cl client = get_or (lookup client cl) []

-- `self.client_locks[client].add(resource)`
abbrev pub note_lock : ℕ → ℕ → Dict (List ℕ) → Dict (List ℕ)
note_lock client resource cl = insert client (add resource (locks_of cl client)) cl

-- `self.client_locks[client].discard(resource)`
abbrev pub forget_lock : ℕ → ℕ → Dict (List ℕ) → Dict (List ℕ)
forget_lock client resource cl = insert client (discard resource (locks_of cl client)) cl

-- The granting branches of `_do_acquire`.
unfoldable pub grant : ℕ → ℕ → ℕ → LockMode → ℕ → LockState → LockManager → LockManager
grant now client resource mode lease state m = record m {
  locks =
      insert resource
        (record state { holders = insert client (new_holder now client mode lease) state.holders })
        m.locks;
  client_locks = note_lock client resource m.client_locks;
}

-- `any(w.client_id == client_id for w in state.waiters)`
unfoldable pub is_waiting : ℕ → List LockRequest → Bool
is_waiting client [] = false
is_waiting client (w ∷ ws) = w.client_id == client || is_waiting client ws

-- The wait-for edges from a refused client to the other holders.
unfoldable pub wait_on : ℕ → List ℕ → DeadlockDetector → DeadlockDetector
wait_on client [] d = d
wait_on client (h ∷ hs) d = wait_on client hs (if h == client then d else add_wait client h d)

-- The conflict branch of `_do_acquire`.
unfoldable pub refuse : ℕ → ℕ → ℕ → ℕ → LockMode → LockState → LockManager → LockManager
refuse now uuid client resource mode state m = record m {
  locks =
      insert resource
        (if is_waiting client state.waiters
          then state
          else record state { waiters = state.waiters ++ request ∷ [] })
        m.locks;
  deadlock_detector = wait_on client (keys state.holders) m.deadlock_detector;
}
  where
    request : LockRequest
    request = record {
      request_id = uuid;
      client_id = client;
      resource = resource;
      mode = mode;
      timestamp = now;
    }

-- `self.locks.setdefault(resource, LockState(resource=resource))`
abbrev pub lock_at : Dict LockState → ℕ → LockState
lock_at locks resource = get_or (lookup resource locks) (empty_lock resource)

unfoldable pub do_acquire : ℕ → ℕ → ℕ → ℕ → LockMode → ℕ → LockManager → LockManager × Bool
do_acquire now uuid client resource mode lease m =
    let state = lock_at m.locks resource in
    let m' = record m { deadlock_detector = set_client_age client now m.deadlock_detector } in
    if not (is_held state)
    then (grant now client resource mode lease state m', true)
    else if same_mode mode shared && mode_is (lock_mode state) shared
    then (grant now client resource mode lease state m', true)
    else (refuse now uuid client resource mode state m', false)

-- The loop of `_promote_waiters`: the holders and the client index after it, and who still waits.
unfoldable pub promote :
    ℕ
    → ℕ
    → ℕ
    → List LockRequest
    → Dict LockHolder
    → Dict (List ℕ)
    → List LockRequest × Dict LockHolder × Dict (List ℕ)
promote now lease resource [] holders cl = ([], holders, cl)
promote now lease resource (req ∷ ws) holders cl =
    let state : LockState = record { resource = resource; holders = holders; waiters = req ∷ ws } in
    let granted =
      promote now lease resource ws
        (insert req.client_id (new_holder now req.client_id req.mode lease) holders)
        (note_lock req.client_id resource cl) in
    if not (is_held state)
    then granted
    else if same_mode req.mode shared && mode_is (lock_mode state) shared
    then granted
    else (req ∷ ws, holders, cl)

-- `_promote_waiters` on an entry of the table.
unfoldable pub promote_waiters : ℕ → ℕ → LockState → LockManager → LockManager
promote_waiters now resource state m =
    let (ws, holders, cl) =
      promote now m.default_lease state.resource state.waiters state.holders m.client_locks in
    record m {
      locks = insert resource (record state { holders = holders; waiters = ws }) m.locks;
      client_locks = cl;
    }

-- `_do_release` past its guards.
unfoldable pub release_held : ℕ → ℕ → ℕ → LockState → LockManager → LockManager
release_held now client resource state m =
    let freed : LockState = record state { holders = erase client state.holders } in
    promote_waiters now resource freed (record m {
      client_locks = forget_lock client resource m.client_locks;
      deadlock_detector =
          if not (is_held freed)
          then remove_client client m.deadlock_detector
          else m.deadlock_detector;
    })

unfoldable pub do_release : ℕ → ℕ → ℕ → LockManager → LockManager × Bool
do_release now client resource m = elim (lookup resource m.locks) [
  | none ↦ (m, false)
  | some state ↦
      if contains client state.holders
      then (release_held now client resource state m, true)
      else (m, false)
]

-- The loop of `_do_release_all` over a snapshot of the client's resources.
unfoldable pub release_each : ℕ → ℕ → List ℕ → LockManager → ℕ → LockManager × ℕ
release_each now client [] m count = (m, count)
release_each now client (r ∷ rs) m count =
    let (m', released) = do_release now client r m in
    release_each now client rs m' (if released then count + 1 else count)

unfoldable pub do_release_all : ℕ → ℕ → LockManager → LockManager × ℕ
do_release_all now client m =
    let (m', count) = release_each now client (locks_of m.client_locks client) m 0 in
    (record m' { deadlock_detector = remove_client client m'.deadlock_detector }, count)

-- The commands of the replicated log. An absent lease is the manager's default; `other` is a
-- command whose `op` is none of these.
pub data Command : Type 0 where
  acquire : ℕ → ℕ → LockMode → Option ℕ → Command
  release : ℕ → ℕ → Command
  release_all abort : ℕ → Command
  other : Command

-- What `_apply_command` returns.
pub data Reply : Type 0 where
  granted released : Bool → Reply
  count : ℕ → Reply
  nothing : Reply

unfoldable pub apply_command : ℕ → ℕ → Command → LockManager → LockManager × Reply
apply_command now uuid (acquire client resource mode lease) m =
    let (m', r) = do_acquire now uuid client resource mode (get_or lease m.default_lease) m in
    (m', granted r)
apply_command now uuid (release client resource) m =
    let (m', r) = do_release now client resource m in (m', released r)
apply_command now uuid (release_all client) m =
    let (m', n) = do_release_all now client m in (m', count n)
apply_command now uuid (abort client) m = let (m', n) = do_release_all now client m in (m', count n)
apply_command now uuid other m = (m, nothing)

-- The committed commands in log order, each with its clock reading and its request id.
unfoldable pub apply_all : List (ℕ × ℕ × Command) → LockManager → LockManager
apply_all [] m = m
apply_all ((now, uuid, c) ∷ cs) m = apply_all cs (apply_command now uuid c m).0
