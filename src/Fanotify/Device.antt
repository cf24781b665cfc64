-- ===== src/Fanotify/Device.antt =====
-- internal/tap/fanotify_linux.go: opening, marking and closing the fanotify descriptor. The kernel's
-- answers are a `Kernel`; what the code asks of it is kept in a log, with the answers.
use agentflash.Common.{ℕ, not, Option, none, some, List, [], ◌∷◌, ◌++◌, Bytes, ◌==◌, if◌then◌else◌}
use agentflash.Common.Int.{ℤ}

-- An error is its number.
abbrev pub Errno : Type 0
Errno = ℕ

abbrev pub einval : Errno
einval = 22

-- `init` is fanotify_init and `mark` is fanotify_mark of a descriptor with its flags, mask and path,
-- `none` where it succeeds.
pub record Kernel : Type 0 where
  pub init : Option ℤ
  pub mark : ℤ → ℕ → ℕ → Bytes → Option Errno

pub data Syscall : Type 0 where
  fanotify_init : Option ℤ → Syscall
  fanotify_mark : (fd : ℤ) (flags mask : ℕ) (path : Bytes) → Option Errno → Syscall
  close : ℤ → Syscall

-- `FAN_MARK_ADD|FAN_MARK_FILESYSTEM`
abbrev pub mark_filesystem : ℕ
mark_filesystem = 0x101

-- `FAN_MARK_ADD|FAN_MARK_MOUNT`
abbrev pub mark_mount : ℕ
mark_mount = 0x11

-- How `Mark` can return: the last with the errors of both attempts.
pub data Marked : Type 0 where
  marked : Marked
  filesystem_error : Errno → Marked
  mount_error : Errno → Errno → Marked

module _ (k : Kernel) where
  unfoldable pub new_fanotify_device : List Syscall → Option ℤ × List Syscall
  new_fanotify_device log = (k.init, log ++ fanotify_init k.init ∷ [])

  -- `Mark` from the answer to its second attempt on, after the error `e` of the first.
  unfoldable pub mark_fallback :
      ℤ → Bytes → ℕ → Errno → List Syscall → Option Errno → Marked × List Syscall
  mark_fallback fd path mask e log none =
      (marked, log ++ fanotify_mark fd mark_mount mask path none ∷ [])
  mark_fallback fd path mask e log (some e2) =
      (mount_error e e2, log ++ fanotify_mark fd mark_mount mask path (some e2) ∷ [])

  -- `Mark` from the answer to its first attempt on.
  unfoldable pub mark_answered : ℤ → Bytes → ℕ → List Syscall → Option Errno → Marked × List Syscall
  mark_answered fd path mask log none =
      (marked, log ++ fanotify_mark fd mark_filesystem mask path none ∷ [])
  mark_answered fd path mask log (some e) =
      let log' = log ++ fanotify_mark fd mark_filesystem mask path (some e) ∷ [] in
      if not (e == einval)
      then (filesystem_error e, log')
      else mark_fallback fd path mask e log' (k.mark fd mark_mount mask path)

  unfoldable pub mark : ℤ → Bytes → ℕ → List Syscall → Marked × List Syscall
  mark fd path mask log = mark_answered fd path mask log (k.mark fd mark_filesystem mask path)

unfoldable pub close_device : ℤ → List Syscall → List Syscall
close_device fd log = log ++ close fd ∷ []
