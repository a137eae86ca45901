-- ===== src/Cache/Runs.antt =====
-- Runs of a cache node (tugas-3/src/nodes/cache_node.py) stay within `max_size`.
use sistem_paralel_terdistri.Common.{
  Bool, Bool-cases, List, Option, Option-cases, [], arith, contains, inl, inr, length, lookup, max,
  member, none, refl, some, true, ℕ, ◌<◌, ◌∷◌, ◌≡◌, ◌≤◌,
}
use sistem_paralel_terdistri.Cache.Bound.{
  Fits, Fits-same, contains_of_lookup, erase-Fits, install-Fits, rewrite-Fits,
}
use sistem_paralel_terdistri.Cache.Capacity.{member-tracked-access}
use sistem_paralel_terdistri.Cache.Node.{
  broadcast_invalidate, delete, fill, get, handle_fetch, handle_invalidate, handle_response, hit,
  miss, put, share,
}
use sistem_paralel_terdistri.Cache.Policy.{Policy, tracked}
use sistem_paralel_terdistri.Cache.State.{CacheNode, init, invalid, is_mesi}

-- The operations and handlers of a node, with what each reads.
pub data Call (V : Type 0) : Type 0 where
  gets : (now key : ℕ) → Call V
  fills : (now key : ℕ) (response : Option (V × ℕ × Bool)) → Call V
  puts : (now key : ℕ) (value : V) → Call V
  deletes invalidates : (key : ℕ) → Call V
  fetches : (sender key : ℕ) → Call V
  responds : (key : ℕ) (value : V) (version : ℕ) (is_shared : Bool) → Call V

module _ {V : Type 0} where
  unfoldable pub run : Call V → CacheNode V → CacheNode V
  run (gets now key) n = (get now key n).0
  run (fills now key r) n = (fill now key r n).0
  run (puts now key v) n = (put now key v n).0
  run (deletes key) n = (delete key n).0
  run (invalidates key) n = handle_invalidate key n
  run (fetches sender key) n = (handle_fetch sender key n).0
  run (responds key v i s) n = (handle_response key v i s n).0

  unfoldable pub run_all : List (Call V) → CacheNode V → CacheNode V
  run_all [] n = n
  run_all (c ∷ cs) n = run_all cs (run c n)

  get-Fits : (max now key : ℕ) (n : CacheNode V) → Fits max n → Fits max (get now key n).0
  unfolding get miss hit
  get-Fits max now key n f = elim (Option-cases (lookup key n.cache)) [
    | inl e ↦ rw (e, get) (Fits-same max n _ refl refl refl f)
    | inr (line, e) ↦ elim (Bool-cases (is_mesi line.state invalid)) [
      | inl i ↦ rw (e, get, i) (Fits-same max n _ refl refl refl f)
      | inr i ↦
          rw (e, get, i)
            (rewrite-Fits max key _ n (hit now key line n) (contains_of_lookup key line n.cache e)
              refl refl (λ x h. member-tracked-access x key n.policy h) f)
    ]
  ]

  put-Fits :
      (max now key : ℕ) (v : V) (n : CacheNode V)
      → 0 < max
      → Fits max n
      → Fits max (put now key v n).0
  unfolding put
  put-Fits max now key v n pos f =
      let n1 = (broadcast_invalidate key n).0 in
      let f1 = Fits-same max n n1 refl refl refl f in
      elim (Option-cases (lookup key n.cache)) [
        | inl e ↦ rw (e, put) (install-Fits max key _ n1 pos f1)
        | inr (line, e) ↦
            rw (e, put)
              (rewrite-Fits max key _ n _ (contains_of_lookup key line n.cache e) refl refl
                (λ x h. member-tracked-access x key n.policy h) f)
      ]

  fetch-Fits :
      (max sender key : ℕ) (n : CacheNode V) → Fits max n → Fits max (handle_fetch sender key n).0
  unfolding handle_fetch share
  fetch-Fits max sender key n f = elim (Option-cases (lookup key n.cache)) [
    | inl e ↦ rw (e, handle_fetch) f
    | inr (line, e) ↦ elim (Bool-cases (is_mesi line.state invalid)) [
      | inl i ↦ rw (e, handle_fetch, i) f
      | inr i ↦
          rw (e, handle_fetch, i)
            (rewrite-Fits max key _ n _ (contains_of_lookup key line n.cache e) refl refl (λ x h. h)
              f)
    ]
  ]

  response-Fits :
      (max key : ℕ) (v : V) (i : ℕ) (s : Bool) (n : CacheNode V)
      → Fits max n
      → Fits max (handle_response key v i s n).0
  unfolding handle_response
  response-Fits max key v i s n f = elim (Bool-cases (member key n.pending_reads)) [
    | inl e ↦ rw (e, handle_response) (Fits-same max n _ refl refl refl f)
    | inr e ↦ rw (e, handle_response) f
  ]

  run-Fits : (max : ℕ) (c : Call V) (n : CacheNode V) → 0 < max → Fits max n → Fits max (run c n)
  unfolding run fill delete handle_invalidate
  run-Fits max (gets now key) n pos f = get-Fits max now key n f
  run-Fits max (fills now key none) n pos f = Fits-same max n _ refl refl refl f
  run-Fits max (fills now key (some r)) n pos f = install-Fits max key _ n pos f
  run-Fits max (puts now key v) n pos f = put-Fits max now key v n pos f
  run-Fits max (deletes key) n pos f = erase-Fits max key n _ refl refl refl f
  run-Fits max (invalidates key) n pos f = elim (Bool-cases (contains key n.cache)) [
    | inl e ↦ rw e (erase-Fits max key n _ refl refl refl f)
    | inr e ↦ rw e f
  ]
  run-Fits max (fetches sender key) n pos f = fetch-Fits max sender key n f
  run-Fits max (responds key v i s) n pos f = response-Fits max key v i s n f

  run_all-Fits :
      (max : ℕ) (cs : List (Call V)) (n : CacheNode V)
      → 0 < max
      → Fits max n
      → Fits max (run_all cs n)
  unfolding run_all
  run_all-Fits max [] n pos f = f
  run_all-Fits max (c ∷ cs) n pos f = run_all-Fits max cs (run c n) pos (run-Fits max c n pos f)

  -- A node that is to hold at least one line never holds more than `max_size` lines, in any run from
  -- an empty cache and with either policy, and the policy can always evict every line that is held.
  pub cache_never_outgrows :
      (node_id : ℕ) (peers : List ℕ) (max : ℕ) (p : Policy) (cs : List (Call V))
      → 0 < max
      → let n = run_all cs (init node_id peers max p) in
        (length n.cache ≤ max)
        × ((x : ℕ) → contains x n.cache ≡ true → member x (tracked n.policy) ≡ true)
  cache_never_outgrows node_id peers max p cs pos =
      let f = run_all-Fits max cs (init node_id peers max p) pos (record {
        limit = refl;
        tracks = λ x h. absurd (ground (arith, h));
        small = omega arith;
      }) in
      (f.small, f.tracks)
