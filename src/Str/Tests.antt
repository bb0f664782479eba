-- ===== src/Str/Tests.antt =====
-- A memory with the string "hi" at 10, and the theorems at it.
use zju_sys3_sp25_kernel.Base.{suc, ◌≡◌, inr, refl, arith, Words, write}
use zju_sys3_sp25_kernel.Str.{memcpy, strncpy, strnlen}
use zju_sys3_sp25_kernel.Str.Length.{IsString, strncpy-memcpy}

abbrev memory : Words
memory = write (write (λ _. 0) 10 104) 11 105

hi-IsString : IsString memory 10 2
unfolding IsString write
hi-IsString = (ground arith, (ground arith, refl))

strncpy-memcpy_example : strncpy memory 20 10 1 ≡ memcpy memory 20 10 (suc (strnlen memory 10 1))
strncpy-memcpy_example = strncpy-memcpy memory 20 10 1 (inr (ground arith))
