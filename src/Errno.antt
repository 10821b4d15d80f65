-- ===== src/Errno.antt =====
-- The error numbers that the sources name, as on Linux, and the negation of one.
use middfs.Common.{ℕ, zero, suc, ℤ, pos, negsuc}

abbrev pub eperm : ℕ
eperm = 1

abbrev pub enoent : ℕ
enoent = 2

abbrev pub eintr : ℕ
eintr = 4

abbrev pub eio : ℕ
eio = 5

abbrev pub enomem : ℕ
enomem = 12

abbrev pub exdev : ℕ
exdev = 18

abbrev pub einval : ℕ
einval = 22

abbrev pub eopnotsupp : ℕ
eopnotsupp = 95

-- `-errno`
abbrev pub minus : ℕ → ℤ
minus zero = pos 0
minus (suc n) = negsuc n
