-- ===== src/Start/Tests.antt =====
-- The theorem on src/start.c at a template of 40 bytes, aligned to 16.
use neoos_libneoos.Base.{inr, refl, ℕ, ◌+◌, ◌*◌, ◌≤◌, ◌≡◌, arith}
use neoos_libneoos.Start.{Phdr, template_of, block_base, block_need, thread_pointer}
use neoos_libneoos.Start.Layout.{unit, tls_layout}

abbrev header : Phdr
header = record { p_type = 7; p_vaddr = 0x400000; p_filesz = 24; p_memsz = 40; p_align = 16 }

tls_layout_example :
    (0x7001 ≤ block_base (template_of header) 0x7001)
    × (block_base (template_of header) 0x7001 + header.p_memsz
        ≤ thread_pointer (template_of header) 0x7001)
    × (thread_pointer (template_of header) 0x7001 + 8 ≤ 0x7001 + block_need (template_of header))
    × ((q : ℕ) × (thread_pointer (template_of header) 0x7001 ≡ q * unit header.p_align))
tls_layout_example = tls_layout header 0x7001 (inr (4, refl)) (omega arith)
