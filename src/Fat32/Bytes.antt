-- ===== src/Fat32/Bytes.antt =====
-- Sectors of bytes, and the numbers in them, the low byte first.
use zju_sys3_sp25_kernel.Base.{ℕ, ◌+◌, ◌*◌, ◌%◌, ◌^◌}

abbrev pub Sector : Type 0
Sector = ℕ → ℕ

abbrev pub w32 : ℕ → ℕ
w32 x = x % 2 ^ 32

abbrev pub le16 : Sector → ℕ → ℕ
le16 s i = s i + s (i + 1) * 2 ^ 8

abbrev pub le32 : Sector → ℕ → ℕ
le32 s i = s i + s (i + 1) * 2 ^ 8 + s (i + 2) * 2 ^ 16 + s (i + 3) * 2 ^ 24
