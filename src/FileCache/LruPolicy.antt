-- ===== src/FileCache/LruPolicy.antt =====
-- component/file_cache/lru_policy.go: which cached files are evicted from the local disk.
-- Nodes have identities: 0 and 1 are the two markers, and each new node gets the next number. A nil
-- dereference, and a send that waits on a full channel, is `none`. The object name of a file, which
-- the code takes from its path by string operations of the library, is the function `obj_name`.
pub mod Links
pub mod Order
pub mod Relink
pub mod Moves
pub mod Steps
pub mod Cut
pub mod Expire
pub mod Kept
pub mod Ahead
pub mod Recent
mod Cutting
mod Deleting
mod Remaining
mod Relinked
pub mod Timeout
mod Tests
use Prim.Native.String.{String}
use cloudfuse.Base.{
  ℕ, zero, suc, ◌+◌, ◌^◌, Bool, true, false, Option, none, some, List, [], ◌∷◌, ◌++◌, load, forget,
  ltb, ◌==◌, if◌then◌else◌, length,
}
use cloudfuse.Base.Int.{ℤ, pos, negsuc}
use cloudfuse.Base.Int64.{add_i64}
use Links.{Pointers, update, points_to, set_prev, set_next, extract_node, set_head}

pub record LruPolicy : Type 0 where
  pub links : Pointers
  pub name_of : ℕ → String
  pub usage : ℕ → ℤ
  pub deleted : ℕ → Bool
  pub node_map : List (String × ℕ)
  pub curr_marker : ℕ
  pub last_marker : ℕ
  pub next_node : ℕ
  pub validate_chan : List String
  pub max_eviction : ℕ

-- `NewLRUPolicy`, and the list that `StartPolicy` makes of the two markers.
unfoldable pub new_lru_policy : ℕ → LruPolicy
new_lru_policy max_eviction = record {
  links = record {
    head = some 0;
    next = λ n. if n == 0 then some 1 else none;
    prev = λ n. if n == 1 then some 0 else none;
  };
  name_of = λ n. if n == 0 then "__" else "##";
  usage = λ n. if ltb n 2 then negsuc 0 else pos 0;
  deleted = λ n. false;
  node_map = [];
  curr_marker = 0;
  last_marker = 1;
  next_node = 2;
  validate_chan = [];
  max_eviction = max_eviction;
}

-- `LoadOrStore` of a new node, or `Load` alone.
unfoldable pub find_node : String → Bool → LruPolicy → Option (ℕ × LruPolicy)
find_node name create p = elim (load name p.node_map) [
  | some n ↦ some (n, p)
  | none ↦
      if create
      then some (
        p.next_node,
        record p {
          node_map = (name, p.next_node) ∷ p.node_map;
          name_of = update p.name_of p.next_node name;
          next_node = suc p.next_node;
        },
      )
      else none
]

-- The node is extracted and set in front, unless it is the head.
unfoldable pub move_to_front : ℕ → LruPolicy → Option LruPolicy
move_to_front n p =
    if points_to p.links.head n then some p else elim (set_head n (extract_node n p.links)) [
      | none ↦ none
      | some links ↦ some (record p { links = links })
    ]

unfoldable pub cache_validate : String → Bool → LruPolicy → Option LruPolicy
cache_validate name create p = elim (find_node name create p) [
  | none ↦ some p
  | some (n, q) ↦ move_to_front n (record q {
    deleted = update q.deleted n false;
    usage = update q.usage n (add_i64 (q.usage n) (pos 1));
  })
]

abbrev pub chan_size : ℕ
chan_size = 10000

unfoldable pub cache_valid : String → LruPolicy → Option LruPolicy
cache_valid name p = elim (load name p.node_map) [
  | none ↦ cache_validate name true p
  | some n ↦
      if ltb (length p.validate_chan) chan_size
      then some (record p { validate_chan = p.validate_chan ++ name ∷ [] })
      else none
]

-- One round of `asyncCacheValid`; with nothing in the channel it waits.
unfoldable pub async_cache_valid : LruPolicy → Option LruPolicy
async_cache_valid p = elim p.validate_chan [
  | [] ↦ none
  | name ∷ names ↦ cache_validate name false (record p { validate_chan = names })
]

unfoldable pub is_cached : String → LruPolicy → Bool
is_cached name p = elim (load name p.node_map) [
  | none ↦ false
  | some n ↦ if p.deleted n then false else true
]

unfoldable pub remove_node : String → LruPolicy → LruPolicy
remove_node name p = elim (load name p.node_map) [
  | none ↦ p
  | some n ↦ record p {
    node_map = forget name p.node_map;
    deleted = update p.deleted n true;
    links = extract_node n p.links;
  }
]

unfoldable pub update_marker : LruPolicy → Option LruPolicy
update_marker p = elim (set_head p.last_marker (extract_node p.last_marker p.links)) [
  | none ↦ none
  | some links ↦
      some (record p { links = links; last_marker = p.curr_marker; curr_marker = p.last_marker })
]

-- The loop of `deleteExpiredNodes`, from a node on, where `room` more may be taken: which nodes it
-- takes, and where it stops. The fuel is the number of nodes that there are.
pub record Taken : Type 0 where
  pub items : List ℕ
  pub stop : Option ℕ

unfoldable pub take_expired : (ℕ → Bool) → (ℕ → Option ℕ) → ℕ → ℕ → Option ℕ → Taken
take_expired pending next zero room node = record { items = []; stop = node }
take_expired pending next (suc fuel) room none = record { items = []; stop = none }
take_expired pending next (suc fuel) zero (some n) = record { items = []; stop = some n }
take_expired pending next (suc fuel) (suc room) (some n) =
    let skipped = take_expired pending next fuel (suc room) (next n) in
    let rest = take_expired pending next fuel room (next n) in
    if pending n then skipped else record rest { items = n ∷ rest.items }

abbrev pub mark_all : List ℕ → (ℕ → Bool) → ℕ → Bool
mark_all [] f = f
mark_all (n ∷ ns) f = mark_all ns (update f n true)

module _ (obj_name : String → String) where
  -- What the lock holds: the expired nodes are cut off behind the last marker.
  unfoldable pub expire : (String → Bool) → LruPolicy → List ℕ × LruPolicy
  unfolding take_expired
  expire pending_ops p = elim (p.links.next p.last_marker) [
    | none ↦ ([], p)
    | some node ↦
        let cut = set_prev (some node) none (set_next (some p.last_marker) none p.links) in
        let pending = λ (n : ℕ). pending_ops (obj_name (p.name_of n)) in
        let t = take_expired pending cut.next p.next_node p.max_eviction (some node) in
        (
          t.items,
          record p {
            links = set_prev t.stop (some p.last_marker) (set_next (some p.last_marker) t.stop cut);
            deleted = mark_all t.items p.deleted;
          },
        )
  ]

  -- `deleteItem`: the policy, and whether the file is deleted from the disk. A file in use, or with
  -- a pending upload, is made valid again.
  unfoldable pub delete_item :
      (String → ℕ)
      → (String → Bool)
      → (String → Bool)
      → String
      → LruPolicy
      → Option (LruPolicy × Bool)
  delete_item open_handles pending_ops on_disk name p =
      let keep : Option (LruPolicy × Bool) = elim (cache_valid name p) [
        | none ↦ none
        | some q ↦ some (q, false)
      ] in
      elim (load name p.node_map) [
        | some n ↦ some (p, false)
        | none ↦
            if ltb 0 (open_handles (obj_name name))
            then keep
            else if pending_ops (obj_name name)
            then keep
            else some (p, on_disk name)
      ]

  -- One round of the second loop of `deleteExpiredNodes`: a node that was made valid meanwhile stays.
  unfoldable pub delete_node :
      (String → ℕ) → (String → Bool) → (String → Bool) → ℕ → LruPolicy → Option (LruPolicy × Bool)
  delete_node open_handles pending_ops on_disk n p =
      if p.deleted n
      then delete_item open_handles pending_ops on_disk (p.name_of n)
          (record p { node_map = forget (p.name_of n) p.node_map })
      else some (p, false)

  -- The second loop: the policy afterwards, and the nodes whose files were deleted from the disk.
  unfoldable pub delete_nodes :
      (String → ℕ)
      → (String → Bool)
      → (String → Bool)
      → List ℕ
      → LruPolicy
      → Option (LruPolicy × List ℕ)
  delete_nodes open_handles pending_ops on_disk [] p = some (p, [])
  delete_nodes open_handles pending_ops on_disk (n ∷ ns) p =
      elim (delete_node open_handles pending_ops on_disk n p) [
        | none ↦ none
        | some (q, gone) ↦ elim (delete_nodes open_handles pending_ops on_disk ns q) [
          | none ↦ none
          | some (r, rest) ↦ some (r, if gone then n ∷ rest else rest)
        ]
      ]

  -- `deleteExpiredNodes`, where no other call runs between its two loops.
  unfoldable pub delete_expired_nodes :
      (String → ℕ) → (String → Bool) → (String → Bool) → LruPolicy → Option (LruPolicy × List ℕ)
  delete_expired_nodes open_handles pending_ops on_disk p =
      let (items, q) = expire pending_ops p in delete_nodes open_handles pending_ops on_disk items q

  -- The timeout case of `clearCache`.
  unfoldable pub timeout :
      (String → ℕ) → (String → Bool) → (String → Bool) → LruPolicy → Option (LruPolicy × List ℕ)
  timeout open_handles pending_ops on_disk p = elim (update_marker p) [
    | none ↦ none
    | some q ↦ delete_expired_nodes open_handles pending_ops on_disk q
  ]
