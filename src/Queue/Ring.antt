-- ===== src/Queue/Ring.antt =====
-- `ConsistentHashRing` of tugas-3/src/nodes/queue_node.py. The two hash functions stand for `_hash`
-- of a key and of `f"{node_id}:vn{i}"`. Node ids are compared as numbers where the source compares
-- strings; every id is below the "\xff" that the source searches with.
use sistem_paralel_terdistri.Common.{
  Bool, List, Option, [], add, discard, if◌then◌else◌, is_empty, leb, length, ltb, member, none,
  not, some, suc, zero, ℕ, ◌&&◌, ◌==◌, ◌||◌, ◌∷◌,
}

-- `_ring` and `_nodes`; an entry is a hash and a node.
pub record ConsistentHashRing : Type 0 where
  pub virtual_nodes : ℕ
  pub ring : List (ℕ × ℕ)
  pub nodes : List ℕ

abbrev pub new_ring : ℕ → ConsistentHashRing
new_ring virtual_nodes = record { virtual_nodes = virtual_nodes; ring = []; nodes = [] }

-- The order of the entries, as Python orders pairs.
abbrev pub before : ℕ × ℕ → ℕ × ℕ → Bool
before (h, a) (g, b) = ltb h g || (h == g && ltb a b)

-- `bisect.insort`: behind the entries that are not greater.
unfoldable pub insort : List (ℕ × ℕ) → ℕ × ℕ → List (ℕ × ℕ)
insort [] e = e ∷ []
insort (f ∷ fs) e = if before e f then e ∷ f ∷ fs else f ∷ insort fs e

-- `bisect.bisect_right(ring, (h, "\xff"))` on a sorted ring: the entries that hash to at most `h`.
unfoldable pub bisect_right : List (ℕ × ℕ) → ℕ → ℕ
bisect_right [] h = 0
bisect_right ((g, n) ∷ es) h = if leb g h then suc (bisect_right es h) else 0

-- The comprehension of `remove_node`.
unfoldable pub without : ℕ → List (ℕ × ℕ) → List (ℕ × ℕ)
without node [] = []
without node ((h, n) ∷ es) = if n == node then without node es else (h, n) ∷ without node es

unfoldable pub remove_node : ℕ → ConsistentHashRing → ConsistentHashRing
remove_node node r =
    if not (member node r.nodes)
    then r
    else record r { nodes = discard node r.nodes; ring = without node r.ring }

-- `self._ring[i][1]`; the source reads positions of the ring only.
abbrev pub node_at : List (ℕ × ℕ) → ℕ → ℕ
node_at [] i = 0
node_at ((h, n) ∷ es) zero = n
node_at ((h, n) ∷ es) (suc i) = node_at es i

-- The loop of `get_n_nodes`, `k` rounds of which are left. `seen` has the elements of `result`.
unfoldable pub walk : ℕ → ℕ → ConsistentHashRing → ℕ → ℕ → List ℕ → List ℕ
walk zero n r idx i result = result
walk (suc k) n r idx i result =
    let j = if leb (length r.ring) i then 0 else i in
    let result' = add (node_at r.ring j) result in
    let rest = walk k n r idx (suc j) result' in
    if ltb (length result) n && ltb (length result) (length r.nodes)
    then if (suc j == idx) && not (is_empty result') then result' else rest
    else result

-- The loop of `add_node` over the virtual nodes from `i`, `k` of which are left.
unfoldable pub add_vnodes : (ℕ → ℕ → ℕ) → ℕ → ℕ → ℕ → List (ℕ × ℕ) → List (ℕ × ℕ)
add_vnodes hash_vnode zero i node ring = ring
add_vnodes hash_vnode (suc k) i node ring =
    add_vnodes hash_vnode k (suc i) node (insort ring (hash_vnode node i, node))

unfoldable pub add_node : (ℕ → ℕ → ℕ) → ℕ → ConsistentHashRing → ConsistentHashRing
add_node hash_vnode node r = if member node r.nodes then r else record r {
  nodes = add node r.nodes;
  ring = add_vnodes hash_vnode r.virtual_nodes 0 node r.ring;
}

unfoldable pub get_node : (ℕ → ℕ) → ℕ → ConsistentHashRing → Option ℕ
get_node hash_key key r =
    let idx = bisect_right r.ring (hash_key key) in
    if is_empty r.ring
    then none
    else some (node_at r.ring (if idx == length r.ring then 0 else idx))

-- One lap of the ring is enough, since every node stands on it.
unfoldable pub get_n_nodes : (ℕ → ℕ) → ℕ → ℕ → ConsistentHashRing → List ℕ
get_n_nodes hash_key key n r =
    let idx = bisect_right r.ring (hash_key key) in
    if is_empty r.ring then [] else walk (length r.ring) n r idx idx []
