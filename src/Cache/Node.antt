-- ===== src/Cache/Node.antt =====
-- The state and the operations of `CacheNode`: tugas-3/src/nodes/cache_node.py. `now` is the clock's
-- reading; `V` the type of the values. A `get` that misses ends with its messages; `fill` is the
-- rest of it, with the response or the timeout that it waited for.
use sistem_paralel_terdistri.Common.{
  Bool, List, Option, [], add, contains, discard, erase, false, if◌then◌else◌, insert, leb, length,
  lookup, member, none, some, suc, zero, ℕ, ◌+◌, ◌==◌, ◌||◌, ◌∷◌,
}
use sistem_paralel_terdistri.Cache.Policy.{Policy, access, admit, evict, remove, tracked}
use sistem_paralel_terdistri.Cache.State.{
  CacheLine, CacheNode, MesiState, Message, Metrics, cache_fetch, cache_invalidate, cache_response,
  exclusive, invalid, is_mesi, modified, shared,
}

abbrev pub count_eviction : Bool → Metrics → Metrics
count_eviction dirty m = record m {
  evictions = m.evictions + 1;
  writebacks = if dirty then m.writebacks + 1 else m.writebacks;
}

abbrev pub first_of : {A : Type 0} → Option A → Option A → Option A
first_of none b = b
first_of (some a) b = some a

module _ {V : Type 0} where
  -- `line.state == s` for a line that may be absent.
  abbrev pub line_is : Option (CacheLine V) → MesiState → Bool
  line_is none s = false
  line_is (some line) s = is_mesi line.state s

  -- One round of `_ensure_capacity` for a victim.
  abbrev pub drop_victim : ℕ → Policy → CacheNode V → CacheNode V
  drop_victim victim policy n = record n {
    policy = policy;
    cache = erase victim n.cache;
    metrics = count_eviction (line_is (lookup victim n.cache) modified) n.metrics;
  }

  -- The loop of `_ensure_capacity`, at most `k` rounds.
  unfoldable pub evict_loop : ℕ → CacheNode V → CacheNode V
  evict_loop zero n = n
  evict_loop (suc k) n =
      if leb n.max_size (length n.cache)
      then elim (evict n.policy) [ none ↦ n | some r ↦ evict_loop k (drop_victim r.0 r.1 n) ]
      else n

  -- Every round takes a key out of the policy.
  abbrev pub ensure_capacity : CacheNode V → CacheNode V
  ensure_capacity n = evict_loop (length (tracked n.policy)) n

  abbrev pub send_each : (ℕ → Message V) → ℕ → List ℕ → List (ℕ × Message V)
  send_each make key [] = []
  send_each make key (p ∷ ps) = (p, make key) ∷ send_each make key ps

  -- `_broadcast_invalidate`
  abbrev pub broadcast_invalidate : ℕ → CacheNode V → CacheNode V × List (ℕ × Message V)
  broadcast_invalidate key n = (
    record n {
      metrics = record n.metrics { invalidations = n.metrics.invalidations + length n.peers };
    },
    send_each cache_invalidate key n.peers,
  )

  -- The hit branch of `get`.
  unfoldable pub hit : ℕ → ℕ → CacheLine V → CacheNode V → CacheNode V
  hit now key line n = record n {
    cache =
        insert key (record line { last_access = now; access_count = line.access_count + 1 })
          n.cache;
    policy = access key n.policy;
    metrics = record n.metrics { hits = n.metrics.hits + 1 };
  }

  -- The miss branch of `get`, up to the wait of `_bus_read`.
  unfoldable pub miss : ℕ → CacheNode V → CacheNode V × List (ℕ × Message V)
  miss key n = (
    record n {
      pending_reads = add key n.pending_reads;
      metrics = record n.metrics { misses = n.metrics.misses + 1 };
    },
    send_each cache_fetch key n.peers,
  )

  unfoldable pub get : ℕ → ℕ → CacheNode V → CacheNode V × List (ℕ × Message V) × Option V
  get now key n =
      let (n', sent) = miss key n in
      elim (lookup key n.cache) [
        | none ↦ (n', sent, none)
        | some line ↦
            if is_mesi line.state invalid
            then (n', sent, none)
            else (hit now key line n, [], some line.value)
      ]

  -- `self.cache[key] = line` and `self.policy.insert(key)`, in a cache with room.
  abbrev pub install : ℕ → CacheLine V → CacheNode V → CacheNode V
  install key line n =
      let n' = ensure_capacity n in
      record n' { cache = insert key line n'.cache; policy = admit key n'.policy }

  -- The rest of `get` after the wait: a response, or the timeout.
  unfoldable pub fill : ℕ → ℕ → Option (V × ℕ × Bool) → CacheNode V → CacheNode V × Option V
  fill now key none n = (record n { pending_reads = discard key n.pending_reads }, none)
  fill now key (some (value, version, is_shared)) n = (
    install key
        (record {
          key = key;
          value = value;
          state = if is_shared then shared else exclusive;
          version = version;
          last_access = now;
          access_count = 0;
        })
        n,
    some value,
  )

  unfoldable pub put : ℕ → ℕ → V → CacheNode V → CacheNode V × List (ℕ × Message V)
  put now key value n =
      let (n1, sent) = broadcast_invalidate key n in
      elim (lookup key n.cache) [
        | none ↦ (
          install key
              (record {
                key = key;
                value = value;
                state = modified;
                version = 1;
                last_access = now;
                access_count = 0;
              })
              n1,
          sent,
        )
        | some line ↦ (
          record n1 {
            cache =
                insert key
                  (record line {
                    value = value;
                    state = modified;
                    version = line.version + 1;
                    last_access = now;
                  })
                  n1.cache;
            policy = access key n1.policy;
          },
          sent,
        )
      ]

  unfoldable pub delete : ℕ → CacheNode V → CacheNode V × List (ℕ × Message V) × Bool
  delete key n =
      let (n1, sent) = broadcast_invalidate key n in
      (
        record n1 { cache = erase key n1.cache; policy = remove key n1.policy },
        sent,
        contains key n.cache,
      )

  -- `_handle_fetch` on a valid line.
  unfoldable pub share : ℕ → ℕ → CacheLine V → CacheNode V → CacheNode V × List (ℕ × Message V)
  share sender key line n = (
    record n {
      cache = insert key (record line { state = shared }) n.cache;
      metrics =
          if is_mesi line.state modified
          then record n.metrics { writebacks = n.metrics.writebacks + 1 }
          else n.metrics;
    },
    (
      sender,
      cache_response key line.value line.version
          (is_mesi line.state shared || is_mesi line.state modified),
    )
        ∷ [],
  )

  unfoldable pub handle_fetch : ℕ → ℕ → CacheNode V → CacheNode V × List (ℕ × Message V)
  handle_fetch sender key n = elim (lookup key n.cache) [
    | none ↦ (n, [])
    | some line ↦ if is_mesi line.state invalid then (n, []) else share sender key line n
  ]

  -- `_handle_response`: the result for a `get` that still waits.
  unfoldable pub handle_response :
      ℕ → V → ℕ → Bool → CacheNode V → CacheNode V × Option (V × ℕ × Bool)
  handle_response key value version is_shared n =
      if member key n.pending_reads
      then (
        record n { pending_reads = discard key n.pending_reads },
        some (value, version, is_shared),
      )
      else (n, none)

  -- A message of the reader's queue, and what it gives to the `get` that waits. A fetch or an
  -- invalidation is for its own handler.
  abbrev pub on_response : Message V → CacheNode V → CacheNode V × Option (V × ℕ × Bool)
  on_response (cache_response key value version is_shared) n =
      handle_response key value version is_shared n
  on_response (cache_fetch key) n = (n, none)
  on_response (cache_invalidate key) n = (n, none)

  -- The responses among the messages sent, each handled by the node to which it is addressed; the
  -- first result is the one that `fut.set_result` keeps.
  unfoldable pub deliver_responses :
      List (ℕ × Message V) → CacheNode V → CacheNode V × Option (V × ℕ × Bool)
  deliver_responses [] n = (n, none)
  deliver_responses ((to, m) ∷ ms) n =
      let handled = on_response m n in
      let mine = deliver_responses ms handled.0 in
      let others = deliver_responses ms n in
      if to == n.node_id then (mine.0, first_of handled.1 mine.1) else others

  -- The state is `INVALID` when the source compares it with `MODIFIED`, so the line always goes.
  unfoldable pub handle_invalidate : ℕ → CacheNode V → CacheNode V
  handle_invalidate key n =
      if contains key n.cache
      then record n { cache = erase key n.cache; policy = remove key n.policy }
      else n
