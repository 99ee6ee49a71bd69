-- ===== src/Start/Entry.antt =====
-- `__libc_start` of src/start.c. `main` is the program's.
use neoos_libneoos.Base.{ℕ, Option, List, if◌then◌else◌}
use neoos_libneoos.Base.Int.{ℤ, pos, eqb_ℤ}
use neoos_libneoos.Start.{Phdr, Memory, tls_find_template, tls_setup_self}

-- The code that `exit` gets, from the auxiliary vector and the memory at the start; `main` runs on the
-- memory that the set-up of thread-local storage leaves.
unfoldable pub libc_start :
    (ℕ → ℕ → ℕ → Phdr) → (ℕ → ℤ) → (ℕ → ℤ) → (Memory → ℤ) → Option (List (ℕ × ℕ)) → Memory → ℤ
unfolding tls_find_template tls_setup_self
libc_start headers mmap_raw set_fs main auxv m =
    let (rc, m₁) = tls_setup_self mmap_raw set_fs (tls_find_template auxv headers) m in
    if eqb_ℤ rc (pos 0) then main m₁ else pos 127
