-- ===== src/BlockCache/Read/Tests.antt =====
-- A file of three bytes in blocks of two, and a pool that is a list of addresses.
use cloudfuse.Base.{
  ℕ, zero, suc, ◌+◌, ◌-◌, ◌*◌, ◌≤◌, ◌<◌, ◌≡◌, ◌⊎◌, refl, ap, Bool, true, false, Option, none, some,
  List, [], ◌∷◌, ◌==◌, ltb, if◌then◌else◌, length, get_or, arith,
}
use cloudfuse.Base.Int.{pos, negsuc}
use cloudfuse.Bitmap.{is_set, clear}
use cloudfuse.Stream.Direct.{direct}
use cloudfuse.BlockCache.Block.{Block, re_use, ready, unblock}
use cloudfuse.BlockCache.Handle.{
  Config, Reader, Answer, at_eof, fails, PoolCalls, BlobRead, prepare_handle_for_block_cache,
  should_commit_and_download,
}
use cloudfuse.BlockCache.Handle.Lists.{one_if, count}
use cloudfuse.BlockCache.Handle.Sound.{IsPool, IsReliable, IsSound}
use cloudfuse.BlockCache.Read.{
  Copied, copied, unfinished, Found, found, missing, get_block, read_in_buffer,
}
use cloudfuse.BlockCache.Read.Direct.{read_in_buffer-copied}

abbrev content : ℕ → ℕ
content n = 10 + n

abbrev answers : ℕ → ℕ → List ℕ → BlobRead
answers calls offset buffer = record {
  filled = direct content offset (length buffer);
  count = 1;
  err = none;
  tag = 7;
}

abbrev take_first : List ℕ → Option (ℕ × List ℕ)
take_first [] = none
take_first (a ∷ rest) = some (a, rest)

abbrev list_pool : PoolCalls (List ℕ)
list_pool = record { must_get = take_first; try_get = take_first; release = λ a p. a ∷ p }

abbrev held : List ℕ → ℕ → ℕ
held p x = count x p

take_first-held :
    (p p' : List ℕ) (a x : ℕ) → take_first p ≡ some (a, p') → held p x ≡ held p' x + one_if (a == x)
take_first-held [] p' a x e = ground (arith, e)
take_first-held (b ∷ rest) p' a x e = ground (arith, e)

list_pool-IsPool : IsPool list_pool held
list_pool-IsPool = record {
  must_get_held = take_first-held;
  try_get_held = take_first-held;
  release_held = λ p a x. omega arith;
}

abbrev config : Config
config = record { block_size = 2; prefetch = 2; no_prefetch = false }

length-direct : (offset n : ℕ) → length (direct content offset n) ≡ n
length-direct offset zero = refl
length-direct offset (suc n) = ap suc (length-direct (suc offset) n)

get_or-direct :
    (offset n x : ℕ) → x < n → get_or (direct content offset n) x 0 ≡ content (offset + x)
get_or-direct offset zero x h = absurd (omega (arith, h))
get_or-direct offset (suc n) zero h = omega arith
get_or-direct offset (suc n) (suc x) h =
    let rest = get_or-direct (suc offset) n x (omega (arith, h)) in omega (arith, rest)

answers-IsReliable : IsReliable held content config 3 7 answers
answers-IsReliable calls offset buffer h = (
  refl,
  omega arith,
  refl,
  length-direct offset (length buffer),
  λ x below inside. get_or-direct offset (length buffer) x below,
)

abbrev unused : ℕ → Block
unused a = record {
  address = a;
  offset = 0;
  id = negsuc 0;
  state = none;
  flags = 1;
  bytes = some (0 ∷ 0 ∷ []);
}

abbrev reader : Reader (List ℕ)
reader = record {
  handle = prepare_handle_for_block_cache 3 7 unused;
  pool = 0 ∷ 1 ∷ 2 ∷ [];
  calls = 0;
}

abbrev always : ℕ → ℕ → Bool
always n a = true

reader-IsSound : IsSound held content config 3 7 reader
unfolding should_commit_and_download
reader-IsSound = record {
  same_size = refl;
  same_etag = refl;
  apart = λ a. ground arith;
  sized = λ a h. absurd (omega (arith, h));
  openable = λ a i h e. absurd (omega (arith, h));
  channels = λ a h. absurd (omega (arith, h));
  waiting = λ a h e. absurd (omega (arith, h));
  entries = λ i a e. absurd (ground (arith, e));
  committed = λ i. refl;
}

read_in_buffer-copied_example :
    (bytes : List ℕ) × (why : Option Answer) × (r' : Reader (List ℕ)) × (read_in_buffer config
        list_pool answers always
        (some 3)
        1
        5
        reader
      ≡ copied bytes why r')
    × (bytes ≡ direct content 1 (length bytes))
    × IsSound held content config 3 7 r'
    × (((why ≡ none) × (length bytes ≡ 5))
        ⊎ (((why ≡ some at_eof) × (length bytes ≡ 3 - 1) × (length bytes ≤ 5))
            ⊎ ((why ≡ some fails) × (length bytes ≤ 5))))
read_in_buffer-copied_example =
    read_in_buffer-copied held content config 3 7 list_pool answers answers-IsReliable
      list_pool-IsPool always (some 3) 1 5 reader (omega arith) (omega arith) reader-IsSound

bytes_of : {P : Type 0} → Copied P → List ℕ × Option Answer
bytes_of (copied bytes why r) = (bytes, why)
bytes_of unfinished = ([], none)

-- The second and the third byte, from two blocks, and the end of the file.
read_test :
    bytes_of (read_in_buffer config list_pool answers always (some 3) 1 5 reader)
    ≡ (11 ∷ 12 ∷ [], some at_eof)
unfolding bytes_of read_in_buffer re_use ready unblock
read_test = refl

-- Six blocks whose downloads have failed, in a handle that is in the random mode.
abbrev failed_download : ℕ → Block
failed_download a = record {
  address = a;
  offset = a * 2;
  id = pos a;
  state = some (record { closed = false; value = some 3 });
  flags = 32;
  bytes = some (0 ∷ 0 ∷ []);
}

abbrev random_reader : Reader (List ℕ)
random_reader = record {
  handle = record {
    size = 20;
    values = λ k. if ltb k 6 then some k else none;
    next = 6;
    opt_cnt = 11;
    cooked = [];
    cooking = 0 ∷ 1 ∷ 2 ∷ 3 ∷ 4 ∷ 5 ∷ [];
    heap = failed_download;
    block_list = [];
    etag = 7;
  };
  pool = [];
  calls = 0;
}

-- A read elsewhere, and then a read of block 2.
after_cleanup : Found (List ℕ) → List ℕ × Option Answer
after_cleanup (found a r) =
    bytes_of (read_in_buffer config list_pool answers always (some 20) 4 2 r)
after_cleanup (missing why r) = ([], some why)

-- The cleanup drops the status of a failed download and opens the block: the read gives zeros, and no error.
failed_download_test :
    after_cleanup (get_block config list_pool answers always (some 20) 12 random_reader)
    ≡ (0 ∷ 0 ∷ [], none)
unfolding after_cleanup bytes_of get_block read_in_buffer unblock is_set clear ready re_use
failed_download_test = refl
