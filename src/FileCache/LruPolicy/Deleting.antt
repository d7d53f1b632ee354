-- ===== src/FileCache/LruPolicy/Deleting.antt =====
-- The second loop of `deleteExpiredNodes` of lru_policy.go, with `deleteItem`.
use Prim.Native.String.{String}
use cloudfuse.Base.{
  ℕ, ◌≡◌, refl, inl, inr, Bool, false, none, some, List, [], ◌∷◌, ltb, if◌then◌else◌, Bool-cases,
  load, forget, load-forget_self, arith,
}
use cloudfuse.FileCache.LruPolicy.{LruPolicy, delete_item, delete_node, delete_nodes}
use cloudfuse.FileCache.LruPolicy.Order.{IsPolicy}
use cloudfuse.FileCache.LruPolicy.Cutting.{
  IsCutting, IsPolicy-of-IsCutting, forgotten, renewed_in_use,
}

module _ (obj_name : String → String) (open_handles : String → ℕ) (on_disk : String → Bool)
    (names : ℕ → String) where
  -- A file that is not in use and is still on the disk.
  abbrev is_deletable : String → Bool
  is_deletable name = if ltb 0 (open_handles (obj_name name)) then false else on_disk name

  -- The nodes of such files.
  abbrev pub deletable : List ℕ → List ℕ
  deletable [] = []
  deletable (n ∷ ns) = let rest = deletable ns in if is_deletable (names n) then n ∷ rest else rest

module _ (obj_name : String → String) (open_handles : String → ℕ)
    (pending_ops on_disk : String → Bool) (names : ℕ → String)
    (idle : (name : String) → pending_ops name ≡ false) where
  delete_item-IsCutting :
      (p : LruPolicy) (xs ns : List ℕ) (name : String)
      → IsCutting names p xs ns
      → load name p.node_map ≡ none
      → (q : LruPolicy) × (ys : List ℕ) × (gone : Bool) × (delete_item obj_name open_handles
            pending_ops on_disk name p
          ≡ some (q, gone))
        × IsCutting names q ys ns
        × (gone ≡ is_deletable obj_name open_handles on_disk names name)
  unfolding delete_item
  delete_item-IsCutting p xs ns name h missing =
      let (q, kept, h') = renewed_in_use names p xs ns name h missing in
      elim (Bool-cases (ltb 0 (open_handles (obj_name name)))) [
        | inl used ↦ (
          q,
          p.next_node ∷ xs,
          false,
          rw (delete_item, missing, used, kept) refl,
          h',
          ground (arith, used),
        )
        | inr free ↦ (
          p,
          xs,
          on_disk name,
          rw (delete_item, missing, free, idle (obj_name name)) refl,
          h,
          ground (arith, free),
        )
      ]

  delete_node-IsCutting :
      (p : LruPolicy) (xs ns : List ℕ) (n : ℕ)
      → IsCutting names p xs (n ∷ ns)
      → (q : LruPolicy) × (ys : List ℕ) × (gone : Bool) × (delete_node obj_name open_handles
            pending_ops on_disk n p
          ≡ some (q, gone))
        × IsCutting names q ys ns
        × (gone ≡ is_deletable obj_name open_handles on_disk names (names n))
  unfolding delete_node
  delete_node-IsCutting p xs ns n h =
      let (q, ys, gone, deleted, h', safe) =
        delete_item-IsCutting (record p { node_map = forget (p.name_of n) p.node_map }) xs ns
          (p.name_of n) (forgotten names p xs ns n h) (load-forget_self (p.name_of n) p.node_map) in
      (q, ys, gone, rw (delete_node, h.doomed.0.0) deleted, h', rw h.doomed.0.2 at safe)

  pub delete_nodes-IsPolicy :
      (ns : List ℕ) (p : LruPolicy) (xs : List ℕ)
      → IsCutting names p xs ns
      → (q : LruPolicy) × (ys : List ℕ) × (gone : List ℕ) × (delete_nodes obj_name open_handles
            pending_ops on_disk ns p
          ≡ some (q, gone))
        × IsPolicy q ys
        × (gone ≡ deletable obj_name open_handles on_disk names ns)
  unfolding delete_nodes
  delete_nodes-IsPolicy [] p xs h = (p, xs, [], refl, IsPolicy-of-IsCutting names p xs h, refl)
  delete_nodes-IsPolicy (n ∷ ns) p xs h =
      let (q, ys, gone, deleted, h', safe) = delete_node-IsCutting p xs ns n h in
      let (r, zs, rest, all, policy, others) = delete_nodes-IsPolicy ns q ys h' in
      (
        r,
        zs,
        if gone then n ∷ rest else rest,
        rw (delete_nodes, deleted, all) refl,
        policy,
        rw (safe, others) refl,
      )
