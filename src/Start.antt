-- ===== src/Start.antt =====
-- src/start.c: the auxiliary vector, the search for the template of thread-local storage, and where a
-- thread's block goes. The kernel's `mmap_raw` and `arch_prctl` are parameters.
pub mod Layout
pub mod Entry
pub mod Masks
mod Tests
use Prim.Native.Nat.{bit_and}
use neoos_libneoos.Base.{
  ℕ, zero, suc, ◌+◌, ◌-◌, ◌*◌, ◌/◌, ◌%◌, ◌^◌, ◌==◌, Bool, ◌||◌, Option, none, some, List, [], ◌∷◌,
  if◌then◌else◌, ltb,
}
use neoos_libneoos.Base.Int.{ℤ, pos, minus, ltb_ℤ, pos_part}
use neoos_libneoos.Base.Census.{put}
use neoos_libneoos.Strings.{Memory, memcpy}
use neoos_libneoos.Syscall.Kernel.{to_int}

-- The loop of `getauxval`, up to AT_NULL.
unfoldable pub auxv_loop : List (ℕ × ℕ) → ℕ → ℕ
auxv_loop [] type = 0
auxv_loop ((t, v) ∷ rest) type =
    let later = auxv_loop rest type in if t == 0 then 0 else if t == type then v else later

-- `getauxval`; `auxv_table` is a null pointer before `__libc_start`.
unfoldable pub getauxval : Option (List (ℕ × ℕ)) → ℕ → ℕ
unfolding auxv_loop
getauxval none type = 0
getauxval (some table) type = auxv_loop table type

-- `align_up`, with 64-bit sums. `w & ~x` is `w` without the bits that it has in common with `x`.
unfoldable pub align_up : ℕ → ℕ → ℕ
align_up v a =
    let m = if ltb a 8 then 8 else a in let w = (v + (m - 1)) % 2 ^ 64 in w - bit_and w (m - 1)

-- `Elf64_Phdr`, as far as it is read
pub record Phdr : Type 0 where
  pub p_type : ℕ
  pub p_vaddr : ℕ
  pub p_filesz : ℕ
  pub p_memsz : ℕ
  pub p_align : ℕ

-- `tls_image`, `tls_filesz`, `tls_align` and `tls_size`
pub record Template : Type 0 where
  pub image : ℕ
  pub filesz : ℕ
  pub align : ℕ
  pub size : ℕ

abbrev pub no_template : Template
no_template = record { image = 0; filesz = 0; align = 0; size = 0 }

-- What a PT_TLS header gives.
unfoldable pub template_of : Phdr → Template
unfolding align_up
template_of ph =
    let align = if ph.p_align == 0 then 8 else ph.p_align in
    record {
      image = ph.p_vaddr;
      filesz = ph.p_filesz;
      align = align;
      size = align_up ph.p_memsz align;
    }

-- The loop of `tls_find_template`: `k` headers are left, from the `i`-th on. PT_TLS is 7.
unfoldable pub find_loop : ℕ → ℕ → (ℕ → Phdr) → Template
unfolding template_of
find_loop zero i phdrs = no_template
find_loop (suc k) i phdrs =
    let rest = find_loop k (i + 1) phdrs in
    if (phdrs i).p_type == 7 then template_of (phdrs i) else rest

-- `tls_find_template`; `headers phdr phent i` is the program header at `phdr + i * phent`. AT_PHDR,
-- AT_PHENT and AT_PHNUM are 3, 4 and 5.
unfoldable pub tls_find_template : Option (List (ℕ × ℕ)) → (ℕ → ℕ → ℕ → Phdr) → Template
unfolding getauxval find_loop
tls_find_template table headers =
    let phdr = getauxval table 3 in
    let phnum = getauxval table 5 in
    let phent = getauxval table 4 in
    if (phdr == 0) || (phnum == 0) || (phent == 0)
    then no_template
    else find_loop phnum 0 (headers phdr phent)

-- The size of the mapping that `__tls_setup_self` asks for.
unfoldable pub block_need : Template → ℕ
block_need t = (t.size + t.align + 64) % 2 ^ 64

-- `base` and `tp`, in a mapping at `raw`.
unfoldable pub block_base : Template → ℕ → ℕ
unfolding align_up
block_base t raw = align_up raw t.align

unfoldable pub thread_pointer : Template → ℕ → ℕ
unfolding block_base
thread_pointer t raw = (block_base t raw + t.size) % 2 ^ 64

-- `*(uint64_t *)a = v`, little-endian: `k` bytes are left.
unfoldable pub store_bytes : ℕ → ℕ → ℕ → Memory → Memory
store_bytes zero a v m = m
store_bytes (suc k) a v m = store_bytes k (a + 1) (v / 256) (put m a (v % 256))

-- `__tls_setup_self`: its code, and the memory afterwards.
unfoldable pub tls_setup_self : (ℕ → ℤ) → (ℕ → ℤ) → Template → Memory → ℤ × Memory
unfolding block_need block_base thread_pointer store_bytes
tls_setup_self mmap_raw set_fs t m =
    if t.size == 0
    then (pos 0, m)
    else let raw = mmap_raw (block_need t) in
      if ltb_ℤ raw (pos 0)
      then (to_int raw, m)
      else let base = block_base t (pos_part raw) in
        let tp = thread_pointer t (pos_part raw) in
        let m₁ = if t.filesz == 0 then m else memcpy base t.image t.filesz m in
        (set_fs tp, store_bytes 8 tp tp m₁)
