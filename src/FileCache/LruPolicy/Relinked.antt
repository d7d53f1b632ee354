-- ===== src/FileCache/LruPolicy/Relinked.antt =====
-- Which pointers the first loop of `deleteExpiredNodes` of lru_policy.go changes.
use Prim.Native.String.{String}
use cloudfuse.Base.{
  ℕ, zero, suc, ◌≤◌, ◌<◌, ◌≡◌, ◌⊎◌, refl, ap, inl, inr, Bool, false, Option, none, some, List, [],
  ◌∷◌, ◌++◌, All, Option-cases, arith,
}
use cloudfuse.FileCache.LruPolicy.{LruPolicy, take_expired, expire}
use cloudfuse.FileCache.LruPolicy.Links.{points_to, set_prev, set_next}
use cloudfuse.FileCache.LruPolicy.Links.Chain.{IsList, first_of, Linked-middle}
use cloudfuse.FileCache.LruPolicy.Order.{below-of-has, IsPolicy}
use cloudfuse.FileCache.LruPolicy.Cut.{relink, next-relink, prev-relink}
use cloudfuse.FileCache.LruPolicy.Expire.{expired, passed}

-- Without a pending upload the nodes that were looked at are the nodes that were taken.
pub passed-expired :
    (pending : ℕ → Bool) (room : ℕ) (ns : List ℕ)
    → ((n : ℕ) → pending n ≡ false)
    → passed pending room ns ≡ expired pending room ns
passed-expired pending room [] idle = refl
passed-expired pending zero (n ∷ ns) idle = refl
passed-expired pending (suc room) (n ∷ ns) idle =
    rw (idle n) (ap (λ t. n ∷ t) (passed-expired pending room ns idle))

below_first :
    (bound : ℕ) (ns : List ℕ) (k : ℕ)
    → All (λ x. x < bound) ns
    → bound ≤ k
    → points_to (first_of ns) k ≡ false
below_first bound [] k h le = refl
below_first bound (n ∷ ns) k h le = ground (arith, h.0, le)

module _ (obj_name : String → String) (pending_ops : String → Bool) where
  pub expire-shape :
      (p : LruPolicy)
      → (expire obj_name pending_ops p).1 ≡ record p {
        links = (expire obj_name pending_ops p).1.links;
        deleted = (expire obj_name pending_ops p).1.deleted;
      }
  unfolding expire
  expire-shape p = elim (Option-cases (p.links.next p.last_marker)) [
    | inl last ↦ rw (expire, last) refl
    | inr (n, some_behind) ↦ rw (expire, some_behind) refl
  ]

  -- The links that change are those of the marker, of the node behind it, and of the node after the
  -- ones that were looked at.
  expire-links :
      (p : LruPolicy)
      → ((expire obj_name pending_ops p).1.links ≡ p.links)
        ⊎ ((stop : Option ℕ) × ((expire obj_name pending_ops p).1.links
              ≡ relink p.last_marker (p.links.next p.last_marker) stop p.links))
  unfolding expire
  expire-links p = elim (Option-cases (p.links.next p.last_marker)) [
    | inl last ↦ inl (rw (expire, last) refl)
    | inr (n, some_behind) ↦
        let cut = set_prev (some n) none (set_next (some p.last_marker) none p.links) in
        let t =
          take_expired (λ k. pending_ops (obj_name (p.name_of k))) cut.next p.next_node
            p.max_eviction (some n) in
        inr (t.stop, rw (expire, some_behind) refl)
  ]

  pub expire-blank :
      (p : LruPolicy) (xs back rest : List ℕ)
      → IsPolicy p (xs ++ p.last_marker ∷ back)
      → IsList (expire obj_name pending_ops p).1.links (xs ++ p.last_marker ∷ rest)
      → All (λ x. x < p.next_node) back
      → All (λ x. x < p.next_node) rest
      → (k : ℕ) → p.next_node ≤ k
      → ((expire obj_name pending_ops p).1.links.next k ≡ none)
        × ((expire obj_name pending_ops p).1.links.prev k ≡ none)
  expire-blank p xs back rest h list young young' k le = elim (expire-links p) [
    | inl same_links ↦ rw same_links (h.blank k le)
    | inr (stop, cut) ↦
        let m = p.last_marker in
        let l = relink m (p.links.next m) stop p.links in
        let list' : IsList l (xs ++ m ∷ rest) = rw cut at list in
        let (_, next) = Linked-middle p.links none p.links.head xs back m h.list.chain in
        let (_, next') = Linked-middle l none l.head xs rest m list'.chain in
        let stops : stop ≡ first_of rest =
          ground (arith, next-relink m (p.links.next m) stop p.links m, next') in
        let below = below-of-has p.next_node m (xs ++ m ∷ back) h.young h.has_last in
        let (clear_next, clear_prev) = h.blank k le in
        let a : points_to stop k ≡ false = rw stops (below_first p.next_node rest k young' le) in
        let b : points_to (p.links.next m) k ≡ false =
          rw next (below_first p.next_node back k young le) in
        let c = next-relink m (p.links.next m) stop p.links k in
        let d = prev-relink m (p.links.next m) stop p.links k in
        rw cut (ground (arith, c, clear_next, below, le), ground (arith, d, a, b, clear_prev))
  ]
