-- ===== src/SizeTracker/Tracker/Interface.antt =====
-- The next component of the pipeline, as far as the size tracker calls it (internal/component.go).
-- Each call may change its state; the laws say what the stored bytes are after a call that succeeds.
use Prim.Native.String.{String}
use cloudfuse.Base.{ℕ, ◌+◌, ◌≡◌, ◌≢◌, Option, none, some, List, length, max}

pub data Error : Type 0 where
  enospc : Error
  not_exist : Error
  failure : ℕ → Error

pub data Answer (A : Type 0) : Type 0 where
  ok : A → Answer A
  err : Error → Answer A

-- A local file: what `Stat` says of its size, and its content.
pub record LocalFile : Type 0 where
  pub stat : Option ℕ
  pub content : List ℕ

pub record NextComponent : Type 1 where
  pub State : Type 0
  pub get_attr : String → State → Answer ℕ × State
  pub create_file : String → State → Option Error × State
  pub delete_file : String → State → Option Error × State
  pub rename_file : String → String → State → Option Error × State
  pub write_file : String → ℕ → List ℕ → State → Answer ℕ × State
  pub truncate_file : String → ℕ → State → Option Error × State
  pub copy_from_file : String → LocalFile → State → Option Error × State
  pub commit_data : String → State → Option Error × State
  pub create_link : String → List ℕ → State → Option Error × State
  pub rename_dir : String → String → State → Option Error × State

abbrev pub size_or : Option ℕ → ℕ
size_or none = 0
size_or (some size) = size

-- The answer to `GetAttr` of a name that has this size, or that is not there.
abbrev pub attr_answer : Option ℕ → Answer ℕ
attr_answer none = err not_exist
attr_answer (some size) = ok size

-- An answer without its value: the error, if there is one.
abbrev pub error_of : {A : Type 0} → Answer A → Option Error
error_of (ok a) = none
error_of (err e) = some e

-- A call that fails leaves the stored bytes as they were; one that succeeds replaces `old` by `new`.
abbrev pub Replaces : ℕ → ℕ → Option Error → ℕ → ℕ → Type 0
Replaces old new none before after = after + old ≡ before + new
Replaces old new (some e) before after = after ≡ before

module _ (next : NextComponent) where
  open next use {
    State, get_attr, create_file, delete_file, rename_file, write_file, truncate_file,
    copy_from_file, commit_data, create_link, rename_dir,
  }

  -- What the tracker relies on: a storage that answers, where each call does what it is named after.
  pub record IsStorage : Type 0 where
    pub total : State → ℕ
    pub size_of : String → State → Option ℕ
    pub get_attr_answers : (n : String) (s : State) → (get_attr n s).0 ≡ attr_answer (size_of n s)
    pub get_attr_total : (n : String) (s : State) → total (get_attr n s).1 ≡ total s
    pub get_attr_sizes : (n m : String) (s : State) → size_of m (get_attr n s).1 ≡ size_of m s
    pub creates :
        (n : String) (s : State)
        → Replaces
            (size_or (size_of n s))
            0
            (create_file n s).0
            (total s)
            (total (create_file n s).1)
    pub deletes :
        (n : String) (s : State)
        → Replaces
            (size_or (size_of n s))
            0
            (delete_file n s).0
            (total s)
            (total (delete_file n s).1)
    pub renames :
        (src dst : String) (s : State)
        → src ≢ dst
        → Replaces
            (size_or (size_of dst s))
            0
            (rename_file src dst s).0
            (total s)
            (total (rename_file src dst s).1)
    pub writes :
        (n : String) (offset : ℕ) (bytes : List ℕ) (s : State)
        → Replaces
            (size_or (size_of n s))
            (max (size_or (size_of n s)) (offset + length bytes))
            (error_of (write_file n offset bytes s).0)
            (total s)
            (total (write_file n offset bytes s).1)
    pub truncates :
        (n : String) (size : ℕ) (s : State)
        → Replaces
            (size_or (size_of n s))
            size
            (truncate_file n size s).0
            (total s)
            (total (truncate_file n size s).1)
    pub copies :
        (n : String) (file : LocalFile) (s : State)
        → Replaces
            (size_or (size_of n s))
            (length file.content)
            (copy_from_file n file s).0
            (total s)
            (total (copy_from_file n file s).1)
    pub commits :
        (n : String) (s : State)
        → Replaces
            (size_or (size_of n s))
            (size_or (size_of n (commit_data n s).1))
            (commit_data n s).0
            (total s)
            (total (commit_data n s).1)
    pub links :
        (n : String) (target : List ℕ) (s : State)
        → Replaces
            (size_or (size_of n s))
            (length target)
            (create_link n target s).0
            (total s)
            (total (create_link n target s).1)
    pub moves : (src dst : String) (s : State) → total (rename_dir src dst s).1 ≡ total s
