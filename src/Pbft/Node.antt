-- ===== src/Pbft/Node.antt =====
-- `PBFTNode` of tugas-3/src/consensus/pbft.py. The digest of a request and the digests that a
-- Byzantine primary sends to a peer are parameters that stand for SHA-256.
use sistem_paralel_terdistri.Common.{
  Bool, Dict, List, [], add, false, get_elem?, get_or, if◌then◌else◌, insert, leb, length, lookup,
  member, none, not, some, true, ℕ, ◌%◌, ◌&&◌, ◌*◌, ◌+◌, ◌-◌, ◌/◌, ◌==◌, ◌||◌, ◌∷◌,
}

pub record PbftRequest (O : Type 0) : Type 0 where
  pub request_id : ℕ
  pub client_id : ℕ
  pub operation : O
  pub timestamp : ℕ

pub record PbftLogEntry (O : Type 0) : Type 0 where
  pub seq_num : ℕ
  pub view : ℕ
  pub request : PbftRequest O
  pub digest : ℕ
  pub pre_prepare_received : Bool
  pub prepares : List ℕ
  pub commits : List ℕ
  pub committed : Bool

-- `all_nodes` is the sorted list of the node and its peers.
pub record PbftNode (O : Type 0) : Type 0 where
  pub node_id : ℕ
  pub peers : List ℕ
  pub all_nodes : List ℕ
  pub view : ℕ
  pub seq_num : ℕ
  pub log : Dict (PbftLogEntry O)
  pub applied : List ℕ
  pub byzantine : Bool

-- The payloads of the three phases.
pub data Message (O : Type 0) : Type 0 where
  pre_prepare : (view seq_num digest : ℕ) (request : PbftRequest O) → Message O
  prepare commit : (view seq_num digest : ℕ) → Message O

-- A message to a peer, or a call of `apply_callback` for a sequence number.
pub data Effect (O : Type 0) : Type 0 where
  send : ℕ → Message O → Effect O
  call : ℕ → O → Effect O

abbrev pub Outcome : Type 0 → Type 0
Outcome O = PbftNode O × List (Effect O)

abbrev pub init : {O : Type 0} → ℕ → List ℕ → List ℕ → PbftNode O
init node_id peers all_nodes = record {
  node_id = node_id;
  peers = peers;
  all_nodes = all_nodes;
  view = 0;
  seq_num = 0;
  log = [];
  applied = [];
  byzantine = false;
}

module _ {O : Type 0} where
  -- `f = (n - 1) // 3`
  abbrev pub faults : PbftNode O → ℕ
  faults n = (length n.all_nodes - 1) / 3

  -- `primary`
  abbrev pub primary : PbftNode O → ℕ
  primary n = get_or (get_elem? n.all_nodes (n.view % length n.all_nodes)) 0

  abbrev pub is_primary : PbftNode O → Bool
  is_primary n = primary n == n.node_id

  -- A send to every peer.
  abbrev pub send_all : (ℕ → Message O) → List ℕ → List (Effect O)
  send_all make [] = []
  send_all make (p ∷ ps) = send p (make p) ∷ send_all make ps

  unfoldable pub set_byzantine : Bool → PbftNode O → PbftNode O
  set_byzantine value n = record n { byzantine = value }

  -- `_broadcast_pre_prepare`
  abbrev pub broadcast_pre_prepare : (ℕ → ℕ) → PbftLogEntry O → PbftNode O → List (Effect O)
  broadcast_pre_prepare malicious entry n =
      send_all
        (λ p.
          pre_prepare entry.view entry.seq_num (if n.byzantine then malicious p else entry.digest)
            entry.request)
        n.peers

  unfoldable pub submit :
      (PbftRequest O → ℕ) → (ℕ → ℕ) → PbftRequest O → PbftNode O → Outcome O × Bool
  submit compute_digest malicious request n =
      let entry : PbftLogEntry O = record {
        seq_num = n.seq_num + 1;
        view = n.view;
        request = request;
        digest = compute_digest request;
        pre_prepare_received = true;
        prepares = [];
        commits = [];
        committed = false;
      } in
      let n' : PbftNode O = record n {
        seq_num = n.seq_num + 1;
        log = insert (n.seq_num + 1) entry n.log;
      } in
      if is_primary n
      then ((n', broadcast_pre_prepare malicious entry n'), true)
      else ((n, []), false)

  -- The log entry of a PRE-PREPARE, a new one if there is none.
  abbrev pub entry_for : ℕ → ℕ → ℕ → PbftRequest O → PbftNode O → PbftLogEntry O
  entry_for view seq digest request n = get_or (lookup seq n.log) (record {
    seq_num = seq;
    view = view;
    request = request;
    digest = digest;
    pre_prepare_received = false;
    prepares = [];
    commits = [];
    committed = false;
  })

  unfoldable pub on_pre_prepare :
      (PbftRequest O → ℕ) → ℕ → ℕ → ℕ → ℕ → PbftRequest O → PbftNode O → Outcome O
  on_pre_prepare compute_digest sender view seq digest request n =
      let entry = entry_for view seq digest request n in
      if not (view == n.view)
        || (not (sender == primary n) || not (digest == compute_digest request))
      then (n, [])
      else (
        record n {
          log =
              insert seq
                (record entry {
                  pre_prepare_received = true;
                  prepares = add n.node_id entry.prepares;
                })
                n.log;
        },
        send_all (λ p. prepare view seq digest) n.peers,
      )

  -- `_on_prepare` for an entry with the digest.
  unfoldable pub count_prepare : ℕ → ℕ → PbftLogEntry O → PbftNode O → Outcome O
  count_prepare sender seq e n =
      let e' : PbftLogEntry O = record e { prepares = add sender e.prepares } in
      if e.pre_prepare_received
        && (leb (2 * faults n) (length e'.prepares) && not (member sender e.commits))
      then (
        record n { log = insert seq (record e' { commits = add n.node_id e.commits }) n.log },
        send_all (λ p. commit n.view seq e.digest) n.peers,
      )
      else (record n { log = insert seq e' n.log }, [])

  unfoldable pub on_prepare : ℕ → ℕ → ℕ → PbftNode O → Outcome O
  on_prepare sender seq digest n = elim (lookup seq n.log) [
    | none ↦ (n, [])
    | some e ↦ if e.digest == digest then count_prepare sender seq e n else (n, [])
  ]

  -- `_apply`
  unfoldable pub apply : PbftLogEntry O → PbftNode O → Outcome O
  apply e n =
      if member e.seq_num n.applied
      then (n, [])
      else (record n { applied = add e.seq_num n.applied }, call e.seq_num e.request.operation ∷ [])

  -- `_on_commit` for an entry with the digest.
  unfoldable pub count_commit : ℕ → ℕ → PbftLogEntry O → PbftNode O → Outcome O
  count_commit sender seq e n =
      let e' : PbftLogEntry O = record e { commits = add sender e.commits } in
      if leb (2 * faults n + 1) (length e'.commits) && not e.committed
      then apply e' (record n { log = insert seq (record e' { committed = true }) n.log })
      else (record n { log = insert seq e' n.log }, [])

  unfoldable pub on_commit : ℕ → ℕ → ℕ → PbftNode O → Outcome O
  on_commit sender seq digest n = elim (lookup seq n.log) [
    | none ↦ (n, [])
    | some e ↦ if e.digest == digest then count_commit sender seq e n else (n, [])
  ]

  -- `_handle_pre_prepare`
  unfoldable pub handle : (PbftRequest O → ℕ) → ℕ → Message O → PbftNode O → Outcome O
  handle compute_digest sender (pre_prepare v s d r) n =
      on_pre_prepare compute_digest sender v s d r n
  handle compute_digest sender (prepare v s d) n = on_prepare sender s d n
  handle compute_digest sender (commit v s d) n = on_commit sender s d n
