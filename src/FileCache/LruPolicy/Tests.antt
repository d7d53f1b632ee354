-- ===== src/FileCache/LruPolicy/Tests.antt =====
-- The policy run on small inputs, and the theorems at them.
use Prim.Native.String.{String}
use cloudfuse.Base.{
  ℕ, zero, suc, ◌≡◌, refl, Bool, true, false, same, if◌then◌else◌, Option, none, some, List, [],
  ◌∷◌,
}
use cloudfuse.FileCache.LruPolicy.{
  LruPolicy, new_lru_policy, find_node, move_to_front, cache_validate, update_marker, take_expired,
  expire, timeout, delete_expired_nodes, delete_nodes, delete_node, delete_item, cache_valid,
}
use cloudfuse.FileCache.LruPolicy.Links.{extract_node, set_head}
use cloudfuse.FileCache.LruPolicy.Steps.{Event, valid, touch, mark, step}
use cloudfuse.FileCache.LruPolicy.Recent.{run}

-- The pointers, followed from the head.
abbrev walk : ℕ → (ℕ → Option ℕ) → Option ℕ → List ℕ
walk zero next start = []
walk (suc fuel) next none = []
walk (suc fuel) next (some n) = n ∷ walk fuel next (next n)

abbrev nodes : Option LruPolicy → List ℕ
nodes none = []
nodes (some p) = walk 20 p.links.next p.links.head

abbrev idle : String → Bool
idle name = false

abbrev same_name : String → String
same_name name = name

abbrev two_files : List Event
two_files = valid "a" ∷ valid "b" ∷ touch "a" ∷ mark ∷ mark ∷ []

order_test : nodes (run two_files (new_lru_policy 1)) ≡ 0 ∷ 1 ∷ 2 ∷ 3 ∷ []
unfolding run step cache_validate find_node move_to_front extract_node set_head update_marker
    new_lru_policy
order_test = refl

-- The eviction takes the first of two files; that file is used again before it is deleted; then the
-- other one is used. The list has become a cycle: 3, 2, 0, 1, and 3 again.
abbrev after_expire : Option LruPolicy → Option LruPolicy
after_expire none = none
after_expire (some p) = some (expire same_name idle p).1

abbrev then_run : List Event → Option LruPolicy → Option LruPolicy
then_run es none = none
then_run es (some p) = run es p

abbrev old_files : List Event
old_files = valid "a" ∷ valid "b" ∷ mark ∷ mark ∷ []

abbrev walk_of : Option LruPolicy → List ℕ
walk_of none = []
walk_of (some p) = walk 8 p.links.next p.links.head

reused_test :
    walk_of
      (then_run (valid "b" ∷ touch "a" ∷ []) (after_expire (run old_files (new_lru_policy 1))))
    ≡ 2 ∷ 3 ∷ 0 ∷ 1 ∷ 2 ∷ 3 ∷ 0 ∷ 1 ∷ []
unfolding expire take_expired run step cache_validate find_node move_to_front extract_node set_head
    update_marker new_lru_policy
reused_test = refl

abbrev next_state : Event → LruPolicy → LruPolicy
next_state e p = elim (step e p) [ none ↦ p | some q ↦ q ]

-- Both files stand behind the last marker; the eviction may take one.
abbrev one_file : LruPolicy
one_file = next_state (valid "a") (new_lru_policy 1)

abbrev both_files : LruPolicy
both_files = next_state (valid "b") one_file

abbrev one_mark : LruPolicy
one_mark = next_state mark both_files

abbrev old : LruPolicy
old = next_state mark one_mark

-- The file "a" is used by someone, "b" is not; both are old enough at the next timeout.
abbrev used : String → ℕ
used name = if same name "a" then 1 else 0

abbrev all_there : String → Bool
all_there name = true

abbrev gone_of : Option (LruPolicy × List ℕ) → List ℕ
gone_of none = []
gone_of (some (q, gone)) = gone

-- The file "b" has the node 3.
timeout_test : gone_of (timeout same_name used idle all_there one_mark) ≡ 3 ∷ []
unfolding timeout delete_expired_nodes delete_nodes delete_node delete_item cache_valid expire
    take_expired step cache_validate find_node move_to_front extract_node set_head update_marker
    new_lru_policy
timeout_test = refl
