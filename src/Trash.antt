-- ===== src/Trash.antt =====
-- The trash of a vault: server/vault/trash.py. The file system is an interface: what a call of it
-- answers, and the state it leaves. An instant is a number of microseconds, and `uuid4` counts.
pub mod Items
pub mod Bin
pub mod Encoded
pub mod Undone
pub mod Purged
pub mod Deleted
use local_book.Base.{List, Option, some, ℕ, ◌≡◌}
use local_book.Paths.{PathFault, Text}
use local_book.Paths.Resolve.{Seen}

-- A location: segments below the vault's root, or below the trash directory.
pub data Place : Type 0 where
  vault_at : List Text → Place
  trash_at : List Text → Place

pub data ItemKind : Type 0 where
  file_item directory_item : ItemKind

-- `TrashItem`
pub record TrashItem : Type 0 where
  pub id : Text
  pub original_path : Text
  pub kind : ItemKind
  pub byte_length : ℕ
  pub file_count : ℕ
  pub deleted_at : ℕ
  pub blob : Text

-- The exceptions that leave the trash.
pub data TrashFault : Type 0 where
  unavailable invalid_operation atomic_write entry_not_found type_error value_error call_failed :
      TrashFault
  path_fault : PathFault → TrashFault

-- The system calls: `lstat`, `os.rename`, and `shutil.rmtree` with its errors passed over.
pub record Disk : Type 1 where
  pub State : Type 0
  pub lstat : Place → State → Seen
  pub rename : Place → Place → State → Option State
  pub remove_tree : Place → State → State

-- What a rename is relied on for: the way back is open.
pub record IsReversible (D : Disk) : Type 0 where
  pub back : (p q : Place) (s s' : D.State) → D.rename p q s ≡ some s' → D.rename q p s' ≡ some s
