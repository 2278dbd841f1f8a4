-- ===== src/Kernel/Refused.antt =====
-- The system calls of kernel/syscall/syscall.c that are refused: by the dispatcher, by the guards
-- of the calls, and those that are not implemented.
use nexus_kernel.Prelude.{
  ℕ, zero, suc, ◌-◌, ◌^◌, ◌≡◌, refl, Bool, true, ◌||◌, ◌&&◌, not, ◌==◌, leb, some, List, arith,
}
use nexus_kernel.Kernel.{Kernel}
use nexus_kernel.Fs.Vfs.{vfs_resolve_path}
use nexus_kernel.Kernel.Syscall.{Registers, perform, syscall_handler}

-- The number is not below 12; it is that of read, fork, sbrk or stat; a write to a descriptor other
-- than 1 and 2; an open of a null path; a getpid without a current process; a mkdir or an unlink
-- without a root.
abbrev pub refused : Kernel → Registers → Bool
refused k r =
    leb 12 r.eax
    || ((r.eax == 1 || (r.eax == 5 || (r.eax == 8 || r.eax == 11)))
        || ((r.eax == 2 && not (r.ebx == 1 || r.ebx == 2))
            || ((r.eax == 3 && r.ebx == 0)
                || ((r.eax == 6 && k.tasks.current_process == 0)
                    || ((r.eax == 9 || r.eax == 10) && k.vfs.vfs_root == 0)))))

module _ (fuel : ℕ) (string_at : ℕ → List ℕ) (node : ℕ) (k : Kernel) where
  refused_at :
      (num ebx ecx edx : ℕ)
      → let regs : Registers = record { eax = num; ebx = ebx; ecx = ecx; edx = edx } in
        refused k regs ≡ true → syscall_handler fuel string_at node regs k ≡ some (2 ^ 32 - 1, k)
  unfolding syscall_handler perform vfs_resolve_path
  refused_at zero b c d h = ground (arith, h)
  refused_at (suc zero) b c d h = refl
  refused_at (suc (suc zero)) b c d h = ground (arith, h)
  refused_at (suc (suc (suc zero))) b c d h = ground (arith, h)
  refused_at (suc (suc (suc (suc zero)))) b c d h = ground (arith, h)
  refused_at (suc (suc (suc (suc (suc zero))))) b c d h = refl
  refused_at (suc (suc (suc (suc (suc (suc zero)))))) b c d h = ground (arith, h)
  refused_at (suc (suc (suc (suc (suc (suc (suc zero))))))) b c d h = ground (arith, h)
  refused_at (suc (suc (suc (suc (suc (suc (suc (suc zero)))))))) b c d h = refl
  refused_at (suc (suc (suc (suc (suc (suc (suc (suc (suc zero))))))))) b c d h = ground (arith, h)
  refused_at (suc (suc (suc (suc (suc (suc (suc (suc (suc (suc zero)))))))))) b c d h =
      ground (arith, h)
  refused_at (suc (suc (suc (suc (suc (suc (suc (suc (suc (suc (suc zero))))))))))) b c d h = refl
  refused_at (suc (suc (suc (suc (suc (suc (suc (suc (suc (suc (suc (suc n)))))))))))) b c d h =
      ground arith

  -- A system call returns -1, as a 32-bit number, and changes nothing, if its number is not below
  -- 12; if it is read, fork, sbrk or stat; if it writes to a descriptor other than 1 and 2; if it
  -- opens a null path; if it asks for the pid and there is no current process; or if it makes or
  -- removes a node and there is no root.
  pub syscall_handler-refused :
      (regs : Registers)
      → refused k regs ≡ true
      → syscall_handler fuel string_at node regs k ≡ some (2 ^ 32 - 1, k)
  syscall_handler-refused regs h = refused_at regs.eax regs.ebx regs.ecx regs.edx h
