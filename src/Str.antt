-- ===== src/Str.antt =====
-- lib/string.c, on a memory of bytes. A pointer is a number.
pub mod Fill
mod Compare
mod Length
mod Tests
use zju_sys3_sp25_kernel.Base.{
  ℕ, zero, suc, ◌+◌, ◌-◌, ◌%◌, ◌^◌, Words, write, ltb, ◌==◌, if◌then◌else◌, Run, done, no_fuel,
}

-- The value that `memcmp` returns for less, in 32 bits.
abbrev pub minus_one : ℕ
minus_one = 2 ^ 32 - 1

pub memset_loop : ℕ → Words → ℕ → ℕ → Words
unfolding write
memset_loop zero m p val = m
memset_loop (suc n) m p val = memset_loop n (write m p val) (p + 1) val

pub memset : Words → ℕ → ℕ → ℕ → Words
unfolding memset_loop
memset m dst c n = memset_loop n m dst (c % 2 ^ 8)

pub memcpy_loop : ℕ → Words → ℕ → ℕ → Words
unfolding write
memcpy_loop zero m dst src = m
memcpy_loop (suc n) m dst src = memcpy_loop n (write m dst (m src)) (dst + 1) (src + 1)

pub memcpy : Words → ℕ → ℕ → ℕ → Words
unfolding memcpy_loop
memcpy m dst src n = memcpy_loop n m dst src

pub memcmp_loop : ℕ → Words → ℕ → ℕ → ℕ
memcmp_loop zero m p1 p2 = 0
memcmp_loop (suc n) m p1 p2 =
    let rest = memcmp_loop n m (p1 + 1) (p2 + 1) in
    if m p1 == m p2 then rest else (if ltb (m p1) (m p2) then minus_one else 1)

pub memcmp : Words → ℕ → ℕ → ℕ → ℕ
unfolding memcmp_loop
memcmp m s1 s2 n = memcmp_loop n m s1 s2

-- The first argument bounds the rounds.
pub strcpy : ℕ → Words → ℕ → ℕ → Run Words
unfolding write
strcpy zero m dst src = no_fuel
strcpy (suc f) m dst src =
    let copied = write m dst (m src) in
    let rest = strcpy f copied (dst + 1) (src + 1) in if m src == 0 then done copied else rest

-- The loop of `strncpy` while `i` is `r` below `n`: the byte is copied before `i` is tested.
pub strncpy_loop : ℕ → Words → ℕ → ℕ → Words
unfolding write
strncpy_loop zero m dst src = write m dst (m src)
strncpy_loop (suc r) m dst src =
    let copied = write m dst (m src) in
    let rest = strncpy_loop r copied (dst + 1) (src + 1) in if m src == 0 then copied else rest

pub strncpy : Words → ℕ → ℕ → ℕ → Words
unfolding strncpy_loop
strncpy m dst src n = strncpy_loop n m dst src

pub strlen_loop : ℕ → Words → ℕ → ℕ → Run ℕ
strlen_loop zero m s len = no_fuel
strlen_loop (suc f) m s len =
    let rest = strlen_loop f m (s + 1) (len + 1) in if m s == 0 then done len else rest

pub strlen : ℕ → Words → ℕ → Run ℕ
unfolding strlen_loop
strlen f m s = strlen_loop f m s 0

-- The loop of `strnlen` while `len` is `r` below `maxlen`.
pub strnlen_loop : ℕ → Words → ℕ → ℕ → ℕ
strnlen_loop zero m s len = len
strnlen_loop (suc r) m s len =
    let rest = strnlen_loop r m s (len + 1) in if m (s + len) == 0 then len else rest

pub strnlen : Words → ℕ → ℕ → ℕ
unfolding strnlen_loop
strnlen m s maxlen = strnlen_loop maxlen m s 0
