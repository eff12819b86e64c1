-- ===== src/Providers/Artifacts/Files.antt =====
-- The part of the file system that src/sot_graph/providers/artifacts.py reads and writes: what `lstat`
-- and a read say of each path below the root of the store.
use sotgraph.Prelude.{Bool, true, false, ◌&&◌, Option, none, some, List, if◌then◌else◌}
use sotgraph.Prelude.Text.{Text, same}

pub data Kind : Type 0 where
  link folder regular other : Kind

pub record Folder : Type 0 where
  pub kind : Kind
  pub owned : Bool
  -- no permission for the group or others
  pub private : Bool

pub record File : Type 0 where
  pub kind : Kind
  pub owned : Bool
  pub readable : Bool
  pub bytes : Text

-- A path `store/<name>/<digest>`, with its two entries and the names of others.
pub record DigestDir : Type 0 where
  pub kind : Kind
  pub owned : Bool
  pub private : Bool
  pub manifest : Option File
  pub artifact : Option File
  pub strays : List Text

-- The directories that are made on demand: the root, `tmp`, `pointers` and `store/<name>`.
pub data Place : Type 0 where
  root staging pointing : Place
  store : Text → Place

pub record Disk : Type 0 where
  pub folders : Place → Option Folder
  pub root_is_real : Bool
  pub digest_dirs : Text → Text → Option DigestDir
  pub pointers : Text → Option File

abbrev pub same_place : Place → Place → Bool
same_place root root = true
same_place staging staging = true
same_place pointing pointing = true
same_place (store a) (store b) = same a b
same_place _ _ = false

abbrev pub put_folder : Place → Folder → Disk → Disk
put_folder p f d = record d { folders = λ q. if same_place p q then some f else d.folders q }

abbrev pub put_dir : Text → Text → DigestDir → Disk → Disk
put_dir name digest x d = record d {
  digest_dirs = λ n g. if same name n && same digest g then some x else d.digest_dirs n g;
}

abbrev pub put_pointer : Text → File → Disk → Disk
put_pointer name f d = record d { pointers = λ n. if same name n then some f else d.pointers n }

abbrev pub erase_pointer : Text → Disk → Disk
erase_pointer name d = record d { pointers = λ n. if same name n then none else d.pointers n }

abbrev is_folder : Kind → Bool
is_folder folder = true
is_folder _ = false

-- `_validate_private_dir`
abbrev pub is_folder_private : Folder → Bool
is_folder_private f = is_folder f.kind && f.owned && f.private

abbrev pub is_private : DigestDir → Bool
is_private x = is_folder x.kind && x.owned && x.private

abbrev is_regular : Kind → Bool
is_regular regular = true
is_regular _ = false

-- `_validate_regular_file`
abbrev pub is_regular_owned : File → Bool
is_regular_owned f = is_regular f.kind && f.owned

abbrev can_hold_bytes : Kind → Bool
can_hold_bytes link = false
can_hold_bytes folder = false
can_hold_bytes _ = true

-- Not a symbolic link, and read without an error.
abbrev pub is_read : File → Bool
is_read f = can_hold_bytes f.kind && f.readable

abbrev pub fresh_folder : Folder
fresh_folder = record { kind = folder; owned = true; private = true }
