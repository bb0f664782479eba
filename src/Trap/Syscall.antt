-- ===== src/Trap/Syscall.antt =====
-- arch/riscv/kernel/trap.c: the table of the handlers, and the system calls by their numbers.
use zju_sys3_sp25_kernel.Base.{
  ℕ, ◌+◌, ◌/◌, ◌%◌, ◌^◌, ◌≡◌, ◌≢◌, ◌∙◌, inl, inr, sym, refl, ◌&&◌, ◌==◌, if◌then◌else◌, List, [],
  ◌∷◌, Option, none, some, Run, done, ◌>>=◌, w64, Words, write, Bool-cases, ==→eq, ==→ne,
}

-- The functions in the table `handler_table_entry`.
pub data TrapHandler : Type 0 where
  supervisor_timer_interrupt_handler : TrapHandler
  ecall_from_user_mode_handler : TrapHandler
  page_fault_handler : TrapHandler

pub record TableEntry : Type 0 where
  pub interrupt : ℕ
  pub exception_code : ℕ
  pub handler : TrapHandler

abbrev pub handler_table : List TableEntry
handler_table =
    record { interrupt = 1; exception_code = 5; handler = supervisor_timer_interrupt_handler }
    ∷ record { interrupt = 0; exception_code = 8; handler = ecall_from_user_mode_handler }
    ∷ record { interrupt = 0; exception_code = 12; handler = page_fault_handler }
    ∷ record { interrupt = 0; exception_code = 13; handler = page_fault_handler }
    ∷ record { interrupt = 0; exception_code = 15; handler = page_fault_handler }
    ∷ []

-- The loop of `trap_handler`: the first entry that fits.
pub table_loop : List TableEntry → ℕ → ℕ → Option TrapHandler
table_loop [] interrupt code = none
table_loop (e ∷ es) interrupt code =
    let rest = table_loop es interrupt code in
    if e.interrupt == interrupt && e.exception_code == code then some e.handler else rest

-- What `trap_handler` calls; `none` if the trap is not handled.
pub trap_handler : ℕ → Option TrapHandler
unfolding table_loop
trap_handler scause = table_loop handler_table (scause / 2 ^ 63 % 2 ^ 8) (scause % 2 ^ 6)

-- `struct pt_regs`
pub record PtRegs : Type 0 where
  pub x : Words
  pub sepc : ℕ
  pub sscratch : ℕ

-- An argument of 32 bits.
abbrev pub int : ℕ → ℕ
int v = v % 2 ^ 32

-- The calls of the switch, with their arguments.
pub data Call : Type 0 where
  sys_open : ℕ → ℕ → Call
  sys_close : ℕ → Call
  sys_lseek : ℕ → ℕ → ℕ → Call
  sys_read : ℕ → ℕ → ℕ → Call
  sys_write : ℕ → ℕ → ℕ → Call
  sys_getpid : Call
  sys_clone : Call
  sys_mmap : ℕ → ℕ → ℕ → ℕ → ℕ → ℕ → Call
  sys_munmap : ℕ → ℕ → Call
  sys_getdents64 : ℕ → ℕ → ℕ → Call
  sys_execve : ℕ → ℕ → ℕ → Call
  sys_waitpid : ℕ → ℕ → ℕ → Call
  sys_exit : ℕ → Call

-- The switch on the number in a7.
pub decode : Words → Option Call
decode x =
    let nr = x 17 in
    if nr == 56
    then some (sys_open (x 10) (int (x 11)))
    else (if nr == 57
        then some (sys_close (int (x 10)))
        else (if nr == 62
            then some (sys_lseek (int (x 10)) (x 11) (int (x 12)))
            else (if nr == 63
                then some (sys_read (int (x 10)) (x 11) (x 12))
                else (if nr == 64
                    then some (sys_write (int (x 10)) (x 11) (x 12))
                    else (if nr == 172
                        then some sys_getpid
                        else (if nr == 220
                            then some sys_clone
                            else (if nr == 222
                                then some (
                                    sys_mmap (x 10) (x 11) (int (x 12)) (int (x 13)) (int (x 14))
                                      (x 15))
                                else (if nr == 215
                                    then some (sys_munmap (x 10) (x 11))
                                    else (if nr == 61
                                        then some (sys_getdents64 (int (x 10)) (x 11) (x 12))
                                        else (if nr == 221
                                            then some (sys_execve (x 10) (x 11) (x 12))
                                            else (if nr == 260
                                                then some
                                                    (sys_waitpid (int (x 10)) (x 11) (int (x 12)))
                                                else (if nr == 93
                                                    then some (sys_exit (int (x 10)))
                                                    else none))))))))))))

-- `sys_exit` gives no value, and falls through to the default case.
pub value : Call → ℕ → ℕ
value c r = elim c [
  | sys_open a b ↦ r
  | sys_close a ↦ r
  | sys_lseek a b d ↦ r
  | sys_read a b d ↦ r
  | sys_write a b d ↦ r
  | sys_getpid ↦ r
  | sys_clone ↦ r
  | sys_mmap a b d e f g ↦ r
  | sys_munmap a b ↦ r
  | sys_getdents64 a b d ↦ r
  | sys_execve a b d ↦ r
  | sys_waitpid a b d ↦ r
  | sys_exit a ↦ 0
]

-- What the functions `sys_...` do to the kernel's state `M`; `sys_clone` is handed the registers.
abbrev pub Calls : Type 0 → Type 0
Calls M = Call → PtRegs → M → Run (ℕ × M)

-- `regs->x[RISCV_REG_A0] = ret`
pub return_value : PtRegs → ℕ → PtRegs
return_value regs ret = record regs { x = write regs.x 10 ret }

pub ecall_from_user_mode : {M : Type 0} → Calls M → PtRegs → M → Run (PtRegs × M)
unfolding decode value return_value
ecall_from_user_mode call regs m =
    let behind : PtRegs = record regs { sepc = w64 (regs.sepc + 4) } in
    elim (decode behind.x) [
      | none ↦ done (return_value behind 0, m)
      | some c ↦ call c behind m >>= (λ r. done (return_value behind (value c r.0), r.1))
    ]

-- The number of a call.
pub number : Call → ℕ
number c = elim c [
  | sys_open a b ↦ 56
  | sys_close a ↦ 57
  | sys_lseek a b d ↦ 62
  | sys_read a b d ↦ 63
  | sys_write a b d ↦ 64
  | sys_getpid ↦ 172
  | sys_clone ↦ 220
  | sys_mmap a b d e f g ↦ 222
  | sys_munmap a b ↦ 215
  | sys_getdents64 a b d ↦ 61
  | sys_execve a b d ↦ 221
  | sys_waitpid a b d ↦ 260
  | sys_exit a ↦ 93
]

-- What the switch gives, in terms of the numbers alone.
pub Decodes : ℕ → Option Call → Type 0
Decodes nr none = (c : Call) → number c ≢ nr
Decodes nr (some c) = number c ≡ nr

decode_case :
    (nr k : ℕ) (c : Call) (rest : Option Call)
    → number c ≡ k
    → (nr ≢ k → Decodes nr rest)
    → Decodes nr (if nr == k then some c else rest)
unfolding Decodes
decode_case nr k c rest e h = elim (Bool-cases (nr == k)) [
  | inl t ↦ rw t (e ∙ sym (==→eq nr k t))
  | inr t ↦ rw t (h (==→ne nr k t))
]

-- No call has another number than the thirteen.
no_call :
    (nr : ℕ)
    → nr ≢ 56
    → nr ≢ 57
    → nr ≢ 62
    → nr ≢ 63
    → nr ≢ 64
    → nr ≢ 172
    → nr ≢ 220
    → nr ≢ 222
    → nr ≢ 215
    → nr ≢ 61
    → nr ≢ 221
    → nr ≢ 260
    → nr ≢ 93
    → (c : Call) → number c ≢ nr
unfolding number
no_call nr n0 _ _ _ _ _ _ _ _ _ _ _ _ (sys_open a b) q = n0 (sym q)
no_call nr _ n1 _ _ _ _ _ _ _ _ _ _ _ (sys_close a) q = n1 (sym q)
no_call nr _ _ n2 _ _ _ _ _ _ _ _ _ _ (sys_lseek a b d) q = n2 (sym q)
no_call nr _ _ _ n3 _ _ _ _ _ _ _ _ _ (sys_read a b d) q = n3 (sym q)
no_call nr _ _ _ _ n4 _ _ _ _ _ _ _ _ (sys_write a b d) q = n4 (sym q)
no_call nr _ _ _ _ _ n5 _ _ _ _ _ _ _ (sys_getpid) q = n5 (sym q)
no_call nr _ _ _ _ _ _ n6 _ _ _ _ _ _ (sys_clone) q = n6 (sym q)
no_call nr _ _ _ _ _ _ _ n7 _ _ _ _ _ (sys_mmap a b d e f g) q = n7 (sym q)
no_call nr _ _ _ _ _ _ _ _ n8 _ _ _ _ (sys_munmap a b) q = n8 (sym q)
no_call nr _ _ _ _ _ _ _ _ _ n9 _ _ _ (sys_getdents64 a b d) q = n9 (sym q)
no_call nr _ _ _ _ _ _ _ _ _ _ n10 _ _ (sys_execve a b d) q = n10 (sym q)
no_call nr _ _ _ _ _ _ _ _ _ _ _ n11 _ (sys_waitpid a b d) q = n11 (sym q)
no_call nr _ _ _ _ _ _ _ _ _ _ _ _ n12 (sys_exit a) q = n12 (sym q)

Decodes-none :
    (nr : ℕ)
    → nr ≢ 56
    → nr ≢ 57
    → nr ≢ 62
    → nr ≢ 63
    → nr ≢ 64
    → nr ≢ 172
    → nr ≢ 220
    → nr ≢ 222
    → nr ≢ 215
    → nr ≢ 61
    → nr ≢ 221
    → nr ≢ 260
    → nr ≢ 93
    → Decodes nr none
unfolding Decodes
Decodes-none nr n0 n1 n2 n3 n4 n5 n6 n7 n8 n9 n10 n11 n12 =
    no_call nr n0 n1 n2 n3 n4 n5 n6 n7 n8 n9 n10 n11 n12

-- The switch takes a number to the call with that number, and only a number of no call to the default case.
pub decode-Decodes : (x : Words) → Decodes (x 17) (decode x)
unfolding decode number
decode-Decodes x = decode_case (x 17) 56 _ _ refl (λ n0. decode_case (x 17) 57 _ _ refl (λ n1.
    decode_case (x 17) 62 _ _ refl (λ n2. decode_case (x 17) 63 _ _ refl (λ n3.
      decode_case (x 17) 64 _ _ refl (λ n4. decode_case (x 17) 172 _ _ refl (λ n5.
        decode_case (x 17) 220 _ _ refl (λ n6. decode_case (x 17) 222 _ _ refl (λ n7.
          decode_case (x 17) 215 _ _ refl (λ n8. decode_case (x 17) 61 _ _ refl (λ n9.
            decode_case (x 17) 221 _ _ refl (λ n10. decode_case (x 17) 260 _ _ refl (λ n11.
              decode_case (x 17) 93 _ _ refl
                (λ n12. Decodes-none (x 17) n0 n1 n2 n3 n4 n5 n6 n7 n8 n9 n10 n11 n12)))))))))))))
