-- ===== src/Syscall.antt =====
-- Results of kernel calls: a count, or a negated error number of kernel/include/syscall.h.
use vibe_os.Base.{ℕ}
use vibe_os.Base.Int.{ℤ, neg}

-- The members of `enum syscall_error` that the modelled files return.
pub data Errno : Type 0 where
  ebadf eacces einval emfile enosys : Errno

abbrev pub code : Errno → ℕ
code Errno.ebadf = 9
code Errno.eacces = 13
code Errno.einval = 22
code Errno.emfile = 24
code Errno.enosys = 38

abbrev pub fail : Errno → ℤ
fail e = neg (code e)
