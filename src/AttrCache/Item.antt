-- ===== src/AttrCache/Item.antt =====
-- component/attr_cache/cacheMap.go, the items, and internal/attribute.go, the attributes they hold.
-- A time is a number; MD5, ETag and Metadata of the attributes, which nothing here reads, are left out,
-- and where the code shares a pointer to attributes, their values are copied.
use Prim.Native.Nat.{bit_and, bit_or}
use Prim.Native.String.{String}
use cloudfuse.Base.{
  ℕ, Bool, false, not, ◌&&◌, ◌||◌, Option, none, List, [], ◌==◌, if◌then◌else◌, same,
}
use cloudfuse.Bitmap.{is_set, set, clear}

-- What the program uses of the library: `strings.TrimSuffix` of a slash, `path.Dir`, `path.Base`.
pub record PathLib : Type 0 where
  pub trim_slash : String → String
  pub dir : String → String
  pub base : String → String

abbrev pub attr_flag_exists : ℕ
attr_flag_exists = 1

abbrev pub attr_flag_valid : ℕ
attr_flag_valid = 2

abbrev pub attr_flag_not_in_cloud : ℕ
attr_flag_not_in_cloud = 3

abbrev pub prop_flag_is_dir : ℕ
prop_flag_is_dir = 2

abbrev pub prop_flag_symlink : ℕ
prop_flag_symlink = 4

abbrev pub prop_flag_mode_default : ℕ
prop_flag_mode_default = 5

-- `os.ModeDir`, `os.ModeType`, and `os.ModePerm` with the setuid, setgid and sticky bits.
abbrev pub mode_dir : ℕ
mode_dir = 2147483648

abbrev pub mode_type : ℕ
mode_type = 2401763328

abbrev pub mode_kept : ℕ
mode_kept = 13631999

pub record ObjAttr : Type 0 where
  pub mtime : ℕ
  pub atime : ℕ
  pub ctime : ℕ
  pub crtime : ℕ
  pub size : ℕ
  pub mode : ℕ
  pub flags : ℕ
  pub path : String
  pub name : String

pub record ListCacheSegment : Type 0 where
  pub entries : List ObjAttr
  pub next_token : String
  pub cached_at : ℕ

-- A pointer to an item is its number in the cache's store.
pub record AttrCacheItem : Type 0 where
  pub attr : ObjAttr
  pub cached_at : ℕ
  pub list_cache : List (String × ListCacheSegment)
  pub attr_flag : ℕ
  pub children : List (String × ℕ)
  pub parent : Option ℕ
  pub listing_complete : Bool

module _ (lib : PathLib) where
  abbrev pub truncate_dir_name : String → String
  truncate_dir_name name = lib.trim_slash name

  unfoldable pub get_parent_dir : String → String
  get_parent_dir child_path =
      let parent_dir = lib.dir (truncate_dir_name child_path) in
      if same parent_dir "." then "" else parent_dir

  unfoldable pub create_obj_attr : String → ℕ → ℕ → ObjAttr
  create_obj_attr object_path size last_modified = record {
    mtime = last_modified;
    atime = last_modified;
    ctime = last_modified;
    crtime = last_modified;
    size = size;
    mode = 0;
    flags = (set 0 prop_flag_mode_default).word;
    path = object_path;
    name = lib.base object_path;
  }

  unfoldable pub create_obj_attr_dir : String → ℕ → ObjAttr
  create_obj_attr_dir path now = record (create_obj_attr (truncate_dir_name path) 4096 now) {
    mode = mode_dir;
    flags = (set (set 0 prop_flag_is_dir).word prop_flag_mode_default).word;
  }

unfoldable pub is_dir : ObjAttr → Bool
is_dir attr = is_set attr.flags prop_flag_is_dir

unfoldable pub new_attr_cache_item : ObjAttr → Bool → ℕ → AttrCacheItem
new_attr_cache_item attr exists cached_at =
    let valid_flag = (set 0 attr_flag_valid).word in
    record {
      attr = attr;
      cached_at = cached_at;
      list_cache = [];
      attr_flag = if exists then (set valid_flag attr_flag_exists).word else valid_flag;
      children = [];
      parent = none;
      listing_complete = false;
    }

unfoldable pub valid : AttrCacheItem → Bool
valid value = is_set value.attr_flag attr_flag_valid

unfoldable pub exists : AttrCacheItem → Bool
exists value = valid value && is_set value.attr_flag attr_flag_exists

unfoldable pub is_in_cloud : AttrCacheItem → Bool
is_in_cloud value =
    not (is_dir value.attr)
    || (is_dir value.attr && not (is_set value.attr_flag attr_flag_not_in_cloud))

abbrev pub is_root : AttrCacheItem → Bool
is_root value = same value.attr.path ""

unfoldable pub mark_in_cloud : Bool → AttrCacheItem → AttrCacheItem
mark_in_cloud in_cloud value =
    if is_root value && not in_cloud
    then value
    else if not (is_dir value.attr)
    then value
    else record value {
      attr_flag =
          if in_cloud
          then (clear value.attr_flag attr_flag_not_in_cloud).word
          else (set value.attr_flag attr_flag_not_in_cloud).word;
    }

unfoldable pub set_size : ℕ → ℕ → AttrCacheItem → AttrCacheItem
set_size size changed_at value = record value {
  attr = record value.attr { mtime = changed_at; ctime = changed_at; size = size };
  cached_at = changed_at;
}

unfoldable pub touch_modify_and_change_times : ℕ → AttrCacheItem → AttrCacheItem
touch_modify_and_change_times changed_at value =
    if exists value
    then record value {
      attr = record value.attr { mtime = changed_at; ctime = changed_at };
      cached_at = changed_at;
    }
    else value

unfoldable pub set_mode : ℕ → ℕ → AttrCacheItem → AttrCacheItem
set_mode mode now value =
    let old_type = bit_and value.attr.mode mode_type in
    let current_type = if old_type == 0 then bit_and mode mode_type else old_type in
    record value {
      attr = record value.attr {
        mode = bit_or current_type (bit_and mode mode_kept);
        flags = (clear value.attr.flags prop_flag_mode_default).word;
        ctime = now;
      };
      cached_at = now;
    }
