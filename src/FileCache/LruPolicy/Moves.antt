-- ===== src/FileCache/LruPolicy/Moves.antt =====
-- What each of the policy's operations does to the list that its pointers stand for.
use Prim.Native.String.{String}
use cloudfuse.Base.{
  ℕ, suc, ◌≡◌, ◌≢◌, refl, sym, ap, ◌∙◌, inl, inr, Bool, true, false, none, some, List, ◌∷◌, ◌++◌,
  Bool-cases, load, forget, load-forget, load-forget_self, same, same_refl, same_path, arith,
}
use mathlib.Core.Path.{subst}
use cloudfuse.Base.Int.{pos}
use cloudfuse.Base.Int64.{add_i64}
use cloudfuse.FileCache.LruPolicy.{
  LruPolicy, find_node, move_to_front, cache_validate, remove_node, update_marker,
}
use cloudfuse.FileCache.LruPolicy.Links.{update, extract_node}
use cloudfuse.FileCache.LruPolicy.Links.Chain.{IsAbsent, IsList}
use cloudfuse.FileCache.LruPolicy.Links.Extract.{extract_node-IsList, extract_node-frame, not_first}
use cloudfuse.FileCache.LruPolicy.Order.{
  has, erase, front, split_at, erase-IsAbsent, has-erase, All-erase, below-of-has, older, IsPolicy,
  Frame, front-IsList, insert-IsList,
}
use cloudfuse.FileCache.LruPolicy.Relink.{
  IsAbsent-above, relinked, move_to_front-IsPolicy, IsPolicy-marked, has-young, has-new,
}

-- A new file gets the next node, in front.
pub inserted :
    (p : LruPolicy) (xs : List ℕ) (name : String)
    → IsPolicy p xs
    → load name p.node_map ≡ none
    → (q : LruPolicy) × (cache_validate name true p ≡ some q) × IsPolicy q (front p.next_node xs)
unfolding cache_validate find_node move_to_front Frame
inserted p xs name h missing =
    let n = p.next_node in
    let absent = IsAbsent-above n n xs h.young (omega arith) in
    let (clear_next, clear_prev) = h.blank n (omega arith) in
    let (m, set, linked, frame) =
      insert-IsList p.links xs n p.curr_marker h.list absent h.has_curr clear_next clear_prev in
    let (gone, _) = erase-IsAbsent n xs (has-young p xs h) in
    let not_head = not_first p.links xs n h.list absent in
    let q : LruPolicy = record p {
      links = m;
      node_map = (name, n) ∷ p.node_map;
      name_of = update p.name_of n name;
      next_node = suc n;
      deleted = update p.deleted n false;
      usage = update p.usage n (add_i64 (p.usage n) (pos 1));
    } in
    let placed : IsPolicy q (n ∷ xs) = record {
      list = linked;
      young = (omega arith, older n xs h.young);
      blank = λ k le.
          let (a, b) =
            frame k (IsAbsent-above n k xs h.young (omega (arith, le))) (omega (arith, le)) in
          let (c, d) = h.blank k (omega (arith, le)) in (a ∙ c, b ∙ d);
      has_curr = has-new p xs p.curr_marker h.has_curr;
      has_last = has-new p xs p.last_marker h.has_last;
      apart = h.apart;
      mapped = mapped-new p xs name h missing;
    } in
    (q, rw (cache_validate, find_node, missing, move_to_front, not_head, set) refl, rw gone placed)
  where
    mapped-new :
        (p : LruPolicy) (xs : List ℕ) (name : String)
        → IsPolicy p xs
        → load name p.node_map ≡ none
        → (other : String) (k : ℕ) → load other ((name, p.next_node) ∷ p.node_map) ≡ some k
        → (has k (p.next_node ∷ xs) ≡ true)
          × (update p.name_of p.next_node name k ≡ other)
          × (k ≢ p.curr_marker)
          × (k ≢ p.last_marker)
    mapped-new p xs name h missing other k e = elim (Bool-cases (same name other)) [
      | inl is_new ↦
          let eq : k ≡ p.next_node = ground (arith, e, is_new) in
          let named = same_path name other is_new in
          let curr = below-of-has p.next_node p.curr_marker xs h.young h.has_curr in
          let last = below-of-has p.next_node p.last_marker xs h.young h.has_last in
          (
            ground (arith, eq),
            ground (arith, eq) ∙ named,
            omega (arith, eq, curr),
            omega (arith, eq, last),
          )
      | inr is_old ↦
          let (a, b, c, d) = h.mapped other k (ground (arith, e, is_old)) in
          let below = below-of-has p.next_node k xs h.young a in
          (has-new p xs k a, ground (arith, below) ∙ b, c, d)
    ]

-- A file that is known is put in front.
pub renewed :
    (p : LruPolicy) (xs : List ℕ) (name : String) (create : Bool) (n : ℕ)
    → IsPolicy p xs
    → load name p.node_map ≡ some n
    → (q : LruPolicy) × (cache_validate name create p ≡ some q) × IsPolicy q (front n xs)
unfolding cache_validate find_node
renewed p xs name create n h known =
    let (at, named, not_curr, not_last) = h.mapped name n known in
    let marked =
      IsPolicy-marked p xs (update p.deleted n false)
        (update p.usage n (add_i64 (p.usage n) (pos 1))) h in
    let (q, moves, policy) =
      move_to_front-IsPolicy
        (record p {
          deleted = update p.deleted n false;
          usage = update p.usage n (add_i64 (p.usage n) (pos 1));
        })
        xs n p.curr_marker marked at h.has_curr (λ e. not_curr (sym e)) in
    (q, rw (cache_validate, find_node, known) moves, policy)

-- The last marker goes in front, and the markers change roles.
pub markers_moved :
    (p : LruPolicy) (xs : List ℕ)
    → IsPolicy p xs
    → (q : LruPolicy) × (update_marker p ≡ some q) × IsPolicy q (front p.last_marker xs)
unfolding update_marker
markers_moved p xs h =
    let (m, set, linked, frame) =
      front-IsList p.links xs p.last_marker p.curr_marker h.list h.has_last h.has_curr h.apart in
    let r = relinked p xs p.last_marker m h h.has_last linked frame in
    (
      record p { links = m; last_marker = p.curr_marker; curr_marker = p.last_marker },
      rw (update_marker, set) refl,
      record {
        list = r.list;
        young = r.young;
        blank = r.blank;
        has_curr = r.has_last;
        has_last = r.has_curr;
        apart = λ e. r.apart (sym e);
        mapped = λ name k e. let (a, b, c, d) = r.mapped name k e in (a, b, d, c);
      },
    )

-- A file that is purged leaves the list.
pub purged :
    (p : LruPolicy) (xs : List ℕ) (name : String) (n : ℕ)
    → IsPolicy p xs
    → load name p.node_map ≡ some n
    → IsPolicy (remove_node name p) (erase n xs)
unfolding remove_node
purged p xs name n h known =
    let (at, named, not_curr, not_last) = h.mapped name n known in
    let (ys, zs, split, gone, before) = split_at n xs at in
    let whole : IsList p.links (ys ++ n ∷ zs) = rw split at h.list in
    let (out, next, prev) = extract_node-IsList p.links ys zs n whole in
    let below = below-of-has p.next_node n xs h.young at in
    let policy : IsPolicy
        (record p {
          node_map = forget name p.node_map;
          deleted = update p.deleted n true;
          links = extract_node n p.links;
        })
        (erase n xs) =
      record {
        list = rw gone out;
        young = All-erase p.next_node n xs h.young;
        blank = λ k le.
            let outside : IsAbsent k (ys ++ n ∷ zs) =
              rw split at (IsAbsent-above p.next_node k xs h.young le) in
            let (a, b) = extract_node-frame p.links ys zs n k whole outside in
            let (c, d) = h.blank k le in (a ∙ c, b ∙ d);
        has_curr = has-erase p.curr_marker n xs (λ e. not_curr (sym e)) ∙ h.has_curr;
        has_last = has-erase p.last_marker n xs (λ e. not_last (sym e)) ∙ h.has_last;
        apart = h.apart;
        mapped = λ other k e. elim (Bool-cases (same name other)) [
          | inl here ↦
              let eq = same_path name other here in
              let none_left : load other (forget name p.node_map) ≡ none =
                subst (λ (t : String). load t (forget name p.node_map) ≡ none) eq
                  (load-forget_self name p.node_map) in
              absurd (ground (arith, none_left, e))
          | inr apart ↦
              let differ : name ≢ other = λ eq.
                ground
                  (arith, apart, subst (λ (t : String). same name t ≡ true) eq (same_refl name)) in
              let (a, b, c, d) =
                h.mapped other k (sym (load-forget name other p.node_map differ) ∙ e) in
              let other_node : k ≢ n = λ eq. differ (sym named ∙ (ap p.name_of (sym eq) ∙ b)) in
              (has-erase k n xs other_node ∙ a, b, c, d)
        ];
      } in
    rw (remove_node, known) policy
