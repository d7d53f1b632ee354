-- ===== src/BlockCache/Read/Cleanup.antt =====
-- The random mode of `startPrefetch`: blocks change their lists, and blocks go back to the pool.
use cloudfuse.Base.{
  ℕ, zero, suc, ◌+◌, ◌-◌, ◌≤◌, ◌≡◌, ◌≢◌, ◌⊎◌, refl, sym, ap, ◌∙◌, inl, inr, Bool, true, false,
  Option, some, List, [], ◌∷◌, ◌++◌, ◌==◌, length, Bool-cases, ltb, arith,
}
use cloudfuse.Base.Int.{ℤ, pos, negsuc}
use mathlib.Core.Path.{subst}
use cloudfuse.BlockCache.Block.{Block, re_use}
use cloudfuse.BlockCache.Handle.{
  Config, Handle, Reader, PoolCalls, BlobRead, flag_downloading, set_block, remove_value,
  clear_flag, bytes_of, receive, blocked, should_commit_and_download,
}
use cloudfuse.BlockCache.Handle.Lists.{one_if, count, count-append}
use cloudfuse.BlockCache.Handle.Sound.{
  IsPool, IsOpenable, HasChannel, downloaded_signal, closed_signal, IsFilled, places, IsSound,
  openable_cases,
}
use cloudfuse.BlockCache.Read.{poll_block, poll_cooking, release_cooked, drop_excess, buffers}

-- The same block, with a channel that is no worse.
pub record IsLike (b b' : Block) : Type 0 where
  pub same_id : b'.id ≡ b.id
  pub same_offset : b'.offset ≡ b.offset
  pub same_bytes : bytes_of b' ≡ bytes_of b
  pub still : IsOpenable b → IsOpenable b'
  pub channel : HasChannel b → HasChannel b'

pub self : (a : ℕ) → (a == a) ≡ true
self a = ground arith

pub IsLike-refl : (b : Block) → IsLike b b
IsLike-refl b = record {
  same_id = refl;
  same_offset = refl;
  same_bytes = refl;
  still = λ o. o;
  channel = λ o. o;
}

module _ {P : Type 0} (held : P → ℕ → ℕ) (stored : ℕ → ℕ) (cfg : Config) (size etag : ℕ) where
  -- The blocks of a handle in other places of its lists.
  pub record IsMoved (r r' : Reader P) : Type 0 where
    pub kept_size : r'.handle.size ≡ r.handle.size
    pub kept_etag : r'.handle.etag ≡ r.handle.etag
    pub same_list : r'.handle.block_list ≡ r.handle.block_list
    pub same_values : (i : ℕ) → r'.handle.values i ≡ r.handle.values i
    pub same_pool : r'.pool ≡ r.pool
    pub same_places :
        (x : ℕ)
        → places held stored cfg size etag x r'.handle ≡ places held stored cfg size etag x r.handle
    pub like : (x : ℕ) → IsLike (r.handle.heap x) (r'.handle.heap x)
    pub waits_on :
        (x : ℕ)
        → (r'.handle.heap x).state ≡ some downloaded_signal
        → ((r.handle.heap x).state ≡ some downloaded_signal)
          × (count x r.handle.cooking ≤ count x r'.handle.cooking)

  pub IsFilled-like :
      (i : ℕ) (b b' : Block)
      → IsLike b b'
      → IsFilled held stored cfg size etag i b
      → IsFilled held stored cfg size etag i b'
  IsFilled-like i b b' l (id, offset, bytes, ready) = (
    l.same_id ∙ id,
    l.same_offset ∙ offset,
    λ x below within. (rw l.same_bytes (bytes x below within)),
    l.still ready,
  )

  pub moved-IsSound :
      (r r' : Reader P)
      → IsMoved r r'
      → IsSound held stored cfg size etag r
      → IsSound held stored cfg size etag r'
  unfolding should_commit_and_download
  moved-IsSound r r' m s = record {
    same_size = m.kept_size ∙ s.same_size;
    same_etag = m.kept_etag ∙ s.same_etag;
    apart = λ x.
        let e = m.same_places x in
        let p : held r'.pool x ≡ held r.pool x = ap (λ (q : P). held q x) m.same_pool in
        let once = s.apart x in omega (arith, e, p, once);
    sized = λ x placed.
        let e = m.same_places x in
        ap length (m.like x).same_bytes ∙ s.sized x (omega (arith, e, placed));
    openable = λ x i placed id.
        let e = m.same_places x in
        (m.like x).still (s.openable x i (omega (arith, e, placed)) (sym (m.like x).same_id ∙ id));
    channels = λ x placed.
        let e = m.same_places x in (m.like x).channel (s.channels x (omega (arith, e, placed)));
    waiting = λ x placed state.
        let e = m.same_places x in
        let (before, more) = m.waits_on x state in
        let one = s.waiting x (omega (arith, e, placed)) before in omega (arith, one, more);
    entries = λ i c e.
        let (placed, filled) = s.entries i c (sym (m.same_values i) ∙ e) in
        let p = m.same_places c in
        (
          omega (arith, p, placed),
          IsFilled-like i (r.handle.heap c) (r'.handle.heap c) (m.like c) filled,
        );
    committed = λ i. (rw m.same_list (s.committed i));
  }

  List-cases : (l : List ℕ) → (l ≡ []) ⊎ ((a : ℕ) × (rest : List ℕ) × (l ≡ a ∷ rest))
  List-cases [] = inl refl
  List-cases (a ∷ rest) = inr (a, rest, refl)

  -- A block is written over.
  pub replaced-IsMoved :
      (a : ℕ) (b : Block) (r : Reader P)
      → IsLike (r.handle.heap a) b
      → (b.state ≡ some downloaded_signal → (r.handle.heap a).state ≡ some downloaded_signal)
      → IsMoved r (record r { handle = set_block a b r.handle })
  replaced-IsMoved a b r like_b waits_b = record {
    kept_size = refl;
    kept_etag = refl;
    same_list = refl;
    same_values = λ i. refl;
    same_pool = refl;
    same_places = λ x. refl;
    like = λ x. elim (Bool-cases (x == a)) [
      | inl same ↦
          let at_a : a ≡ x = ground (arith, same) in
          subst (λ (y : ℕ). IsLike (r.handle.heap y) ((set_block a b r.handle).heap y)) at_a
            (rw (self a) like_b)
      | inr other ↦ rw other (IsLike-refl (r.handle.heap x))
    ];
    waits_on = λ x state. elim (Bool-cases (x == a)) [
      | inl same ↦
          let at_a : a ≡ x = ground (arith, same) in
          let there : (r.handle.heap a).state ≡ some downloaded_signal =
            waits_b (rw same at state) in
          (
            subst (λ (y : ℕ). (r.handle.heap y).state ≡ some downloaded_signal) at_a there,
            omega arith,
          )
      | inr other ↦ ((rw other at state), omega arith)
    ];
  }

  module _ (pool_calls : PoolCalls P) (read_blob : ℕ → ℕ → List ℕ → BlobRead)
      (arrived : ℕ → ℕ → Bool) (attr_size : Option ℕ) where
    -- The block goes to the end of its list.
    turned-IsMoved :
        (a : ℕ) (rest : List ℕ) (r : Reader P)
        → r.handle.cooking ≡ a ∷ rest
        → IsMoved r (record r { handle = record r.handle { cooking = rest ++ a ∷ [] } })
    turned-IsMoved a rest r e = record {
      kept_size = refl;
      kept_etag = refl;
      same_list = refl;
      same_values = λ i. refl;
      same_pool = refl;
      same_places = λ x.
          let back = count-append x rest (a ∷ []) in
          let old : count x r.handle.cooking ≡ count x (a ∷ rest) = ap (count x) e in
          omega (arith, back, old);
      like = λ x. IsLike-refl (r.handle.heap x);
      waits_on = λ x state.
          let back = count-append x rest (a ∷ []) in
          let old : count x r.handle.cooking ≡ count x (a ∷ rest) = ap (count x) e in
          (state, omega (arith, back, old));
    }

    -- The block has arrived: it is opened, and goes to the other list.
    arrived-IsMoved :
        (a : ℕ) (b : Block) (rest : List ℕ) (r : Reader P)
        → r.handle.cooking ≡ a ∷ rest
        → IsLike (r.handle.heap a) b
        → b.state ≡ some closed_signal
        → IsMoved r (record r {
          handle =
              set_block a b
                (record r.handle { cooking = rest; cooked = r.handle.cooked ++ a ∷ [] });
        })
    arrived-IsMoved a b rest r e like_b closed = record {
      kept_size = refl;
      kept_etag = refl;
      same_list = refl;
      same_values = λ i. refl;
      same_pool = refl;
      same_places = λ x.
          let back = count-append x r.handle.cooked (a ∷ []) in
          let old : count x r.handle.cooking ≡ count x (a ∷ rest) = ap (count x) e in
          omega (arith, back, old);
      like = λ x. elim (Bool-cases (x == a)) [
        | inl same ↦
            let at_a : a ≡ x = ground (arith, same) in
            subst (λ (y : ℕ). IsLike (r.handle.heap y) ((set_block a b r.handle).heap y)) at_a
              (rw (self a) like_b)
        | inr other ↦ rw other (IsLike-refl (r.handle.heap x))
      ];
      waits_on = λ x state. elim (Bool-cases (x == a)) [
        | inl same ↦
            let never : some closed_signal ≡ some downloaded_signal =
              sym closed ∙ (rw same at state) in
            absurd (ground (arith, never))
        | inr other ↦
            let there : (r.handle.heap x).state ≡ some downloaded_signal = (rw other at state) in
            let old : count x r.handle.cooking ≡ count x (a ∷ rest) = ap (count x) e in
            (there, ground (arith, old, other))
      ];
    }

    opened-IsLike :
        (b : Block)
        → IsLike b (record (clear_flag flag_downloading b) { state = some closed_signal })
    opened-IsLike b = record {
      same_id = refl;
      same_offset = refl;
      same_bytes = refl;
      still = λ o. inr refl;
      channel = λ o. inl (inr refl);
    }

    poll_block-IsSound :
        (n a : ℕ) (rest : List ℕ) (r : Reader P)
        → IsSound held stored cfg size etag r
        → r.handle.cooking ≡ a ∷ rest
        → (h : Handle) × (poll_block cfg pool_calls read_blob arrived attr_size n a rest r.handle
            ≡ some h)
          × IsSound held stored cfg size etag (record r { handle = h })
    unfolding poll_block
    poll_block-IsSound n a rest r s e =
        let back : Handle = record r.handle { cooking = rest ++ a ∷ [] } in
        let turned = moved-IsSound r (record r { handle = back }) (turned-IsMoved a rest r e) s in
        let old : count a r.handle.cooking ≡ count a (a ∷ rest) = ap (count a) e in
        let b = clear_flag flag_downloading (r.handle.heap a) in
        elim (s.channels a (ground (arith, old))) [
          | inr fresh ↦
              let empty : receive (r.handle.heap a) ≡ blocked = rw (receive, fresh) refl in
              (back, (rw (poll_block, empty) refl), turned)
          | inl openable ↦ elim (openable_cases held stored cfg size etag b openable) [
            | inr closed ↦ (back, (rw (poll_block, closed) refl), turned)
            | inl (has, opens) ↦ elim (Bool-cases (arrived n a)) [
              | inr not_yet ↦ (back, (rw (poll_block, has, not_yet) refl), turned)
              | inl there ↦
                  let opened : Block = record b { state = some closed_signal } in
                  let h : Handle =
                    set_block a opened
                      (record r.handle { cooking = rest; cooked = r.handle.cooked ++ a ∷ [] }) in
                  (
                    h,
                    (rw (poll_block, has, there, opens) refl),
                    moved-IsSound r (record r { handle = h })
                        (arrived-IsMoved a opened rest r e (opened-IsLike (r.handle.heap a)) refl)
                        s,
                  )
            ]
          ]
        ]

    poll_cooking-IsSound :
        (n : ℕ) (r : Reader P)
        → IsSound held stored cfg size etag r
        → (h : Handle) × (poll_cooking cfg pool_calls read_blob arrived attr_size n r.handle
            ≡ some h)
          × IsSound held stored cfg size etag (record r { handle = h })
    unfolding poll_cooking
    poll_cooking-IsSound zero r s = (r.handle, refl, s)
    poll_cooking-IsSound (suc n) r s = elim (List-cases r.handle.cooking) [
      | inl empty ↦ (r.handle, (simp (poll_cooking, empty) refl), s)
      | inr (a, rest, e) ↦
          let (h, polled, s') = poll_block-IsSound n a rest r s e in
          let (h', rest_polled, s2) = poll_cooking-IsSound n (record r { handle = h }) s' in
          (h', (rw (poll_cooking, e, polled) rest_polled), s2)
    ]

    gone_entry :
        (z : ℤ) (a i c : ℕ) (r : Reader P)
        → IsSound held stored cfg size etag r
        → (r.handle.heap a).id ≡ z
        → (remove_value z r.handle).values i ≡ some c
        → (r.handle.values i ≡ some c) × (c ≢ a)
    gone_entry (negsuc n) a i c r s at e =
        let (placed, filled) = s.entries i c e in
        (
          e,
          λ same.
              let at_c : (r.handle.heap c).id ≡ negsuc n = rw same at in
              let both : negsuc n ≡ pos i = sym at_c ∙ filled.0 in absurd (ground (arith, both)),
        )
    gone_entry (pos old) a i c r s at e =
        let other : (i == old) ≡ false = ground (arith, e) in
        let there : r.handle.values i ≡ some c = ground (arith, e, other) in
        let (placed, filled) = s.entries i c there in
        (
          there,
          λ same.
              let at_c : (r.handle.heap c).id ≡ pos old = rw same at in
              let both : pos old ≡ pos i = sym at_c ∙ filled.0 in ground (arith, both, other),
        )

    -- A block is taken out of the lists and out of the map, and goes back to the pool.
    abbrev given_back : ℕ → List ℕ → Reader P → Reader P
    given_back a rest r =
        let b = r.handle.heap a in
        let h = set_block a (re_use b) (remove_value b.id (record r.handle { cooked = rest })) in
        record r { handle = h; pool = pool_calls.release a r.pool }

    given_back-IsSound :
        (a : ℕ) (rest : List ℕ) (r : Reader P)
        → IsPool pool_calls held
        → IsSound held stored cfg size etag r
        → r.handle.cooked ≡ a ∷ rest
        → IsSound held stored cfg size etag (given_back a rest r)
    unfolding should_commit_and_download
    given_back-IsSound a rest r is_pool s e =
        let r' = given_back a rest r in
        let cut : (x : ℕ)
            → places held stored cfg size etag x r.handle
              ≡ one_if (a == x) + places held stored cfg size etag x r'.handle =
          λ x.
            let old : count x r.handle.cooked ≡ count x (a ∷ rest) = ap (count x) e in
            omega (arith, old) in
        let others : (x : ℕ) → 1 ≤ places held stored cfg size etag x r'.handle → x ≢ a =
          λ x placed same.
            let c = cut x in let once = s.apart x in ground (arith, c, once, placed, same) in
        let old_place : (x : ℕ)
            → 1 ≤ places held stored cfg size etag x r'.handle
            → 1 ≤ places held stored cfg size etag x r.handle =
          λ x placed. let c = cut x in omega (arith, c, placed) in
        let heap_of : (x : ℕ) → x ≢ a → r'.handle.heap x ≡ r.handle.heap x =
          λ x other. ground (arith, other) in
        record {
          same_size = s.same_size;
          same_etag = s.same_etag;
          apart = λ x.
              let c = cut x in
              let once = s.apart x in
              let back = is_pool.release_held r.pool a x in omega (arith, c, once, back);
          sized = λ x placed.
              ap (λ (b : Block). length (bytes_of b)) (heap_of x (others x placed))
              ∙ s.sized x (old_place x placed);
          openable = λ x i placed id.
              let same = heap_of x (others x placed) in
              subst IsOpenable (sym same)
                (s.openable x i (old_place x placed) (sym (ap (λ (b : Block). b.id) same) ∙ id));
          channels = λ x placed.
              subst HasChannel (sym (heap_of x (others x placed)))
                (s.channels x (old_place x placed));
          waiting = λ x placed state.
              let same = heap_of x (others x placed) in
              s.waiting x (old_place x placed) (sym (ap (λ (b : Block). b.state) same) ∙ state);
          entries = λ i c there.
              let (old, other) = gone_entry (r.handle.heap a).id a i c r s refl there in
              let (placed, filled) = s.entries i c old in
              let moved = cut c in
              (
                ground (arith, moved, placed, other),
                subst (IsFilled held stored cfg size etag i) (sym (heap_of c other)) filled,
              );
          committed = s.committed;
        }

    release_cooked-IsSound :
        (excess : ℕ) (r : Reader P)
        → IsPool pool_calls held
        → IsSound held stored cfg size etag r
        → IsSound held stored cfg size etag
            (release_cooked cfg pool_calls read_blob arrived attr_size excess r)
    unfolding release_cooked
    release_cooked-IsSound zero r is_pool s = s
    release_cooked-IsSound (suc excess) r is_pool s = elim (List-cases r.handle.cooked) [
      | inl empty ↦ rw (release_cooked, empty) s
      | inr (a, rest, e) ↦
          let s' = given_back-IsSound a rest r is_pool s e in
          rw (release_cooked, e) (release_cooked-IsSound excess (given_back a rest r) is_pool s')
    ]

    pub drop_excess-IsSound :
        (r : Reader P)
        → IsPool pool_calls held
        → IsSound held stored cfg size etag r
        → (r' : Reader P) × (drop_excess cfg pool_calls read_blob arrived attr_size r ≡ some r')
          × IsSound held stored cfg size etag r'
    unfolding drop_excess
    drop_excess-IsSound r is_pool s =
        elim (Bool-cases (ltb 5 (buffers cfg pool_calls read_blob arrived attr_size r.handle))) [
          | inr few ↦ (r, (rw (drop_excess, few) refl), s)
          | inl many ↦
              let (h, polled, s') = poll_cooking-IsSound (length r.handle.cooking) r s in
              (
                release_cooked cfg pool_calls read_blob arrived attr_size (length h.cooked - 5)
                    (record r { handle = h }),
                (rw (drop_excess, many, polled) refl),
                release_cooked-IsSound (length h.cooked - 5) (record r { handle = h }) is_pool s',
              )
        ]
