-- ===== src/Loader/Relocate.antt =====
-- `relocate64` of fs/loader.c.
use artyom_x.Base.{
  ℕ, zero, suc, ◌+◌, ◌-◌, ◌*◌, ◌/◌, ◌%◌, ◌^◌, ◌||◌, Option, none, some, leb, ◌==◌, if◌then◌else◌,
}
use artyom_x.Libc.{Memory}
use artyom_x.Loader.Image.{Rela, rela_at, Shdr, st_value, put_bytes_at}

-- The value of a symbol, 0 for number 0 and where there is no table.
unfoldable pub symbol_value : Option ℕ → ℕ → Memory → ℕ
symbol_value none sym_idx mem = 0
symbol_value (some syms) sym_idx mem =
    if sym_idx == 0 then 0 else st_value mem (syms + sym_idx * 24)

-- The `switch` over the type; `target` is also `P`.
unfoldable pub relocate_at : ℕ → ℕ → ℕ → ℕ → ℕ → Memory → Memory
relocate_at type exec target sym_value addend mem =
    let value = (sym_value + addend) % 2 ^ 64 in
    let relative = (value + 2 ^ 64 - target) % 2 ^ 64 in
    let put = λ (n : ℕ) (v : ℕ). put_bytes_at n target v mem in
    if type == 0
    then mem
    else if type == 1
    then put 8 (if sym_value == 0 then addend else value)
    else if type == 8
    then put 8 ((exec + addend) % 2 ^ 64)
    else if (type == 10) || (type == 11)
    then put 4 value
    else if type == 2
    then put 4 relative
    else if type == 24
    then put 8 relative
    else if (type == 6) || (type == 7)
    then put 8 (if sym_value == 0 then addend else sym_value)
    else mem

-- The address that an entry relocates.
abbrev pub target_of : ℕ → ℕ → Rela → ℕ
target_of exec load_addr r = (exec + (r.offset + 2 ^ 64 - load_addr) % 2 ^ 64) % 2 ^ 64

unfoldable pub relocate_loop : ℕ → ℕ → Option ℕ → ℕ → ℕ → Memory → Memory
relocate_loop zero a syms exec load_addr mem = mem
relocate_loop (suc n) a syms exec load_addr mem =
    let r = rela_at mem a in
    let sym_value = symbol_value syms (r.info / 2 ^ 32) mem in
    relocate_loop n (a + 24) syms exec load_addr
      (relocate_at (r.info % 2 ^ 32) exec (target_of exec load_addr r) sym_value r.addend mem)

-- `int num_relocs = sh_size / sizeof(Elf64_Rela)`, none where that is negative.
abbrev pub num_relocs : Shdr → ℕ
num_relocs s = let n = s.size / 24 % 2 ^ 32 in if leb (2 ^ 31) n then 0 else n

pub relocate64 : Shdr → Option ℕ → ℕ → ℕ → ℕ → Memory → Memory
relocate64 rel_sec syms elf_start exec load_addr mem =
    relocate_loop (num_relocs rel_sec) (elf_start + rel_sec.offset) syms exec load_addr mem
