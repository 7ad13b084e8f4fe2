-- ===== src/Loader/Image.antt =====
-- The headers of an ELF image, fs/elf.h, as fs/loader.c reads them: fields of 2, 4 and 8 bytes.
use artyom_x.Base.{ℕ, zero, suc, ◌+◌, ◌*◌, ◌/◌, ◌%◌}
use artyom_x.Libc.{Memory, store}

-- `n` bytes with the low one first, read and written.
unfoldable pub bytes_at : ℕ → Memory → ℕ → ℕ
bytes_at zero mem a = 0
bytes_at (suc n) mem a = mem a + bytes_at n mem (a + 1) * 256

unfoldable pub put_bytes_at : ℕ → ℕ → ℕ → Memory → Memory
put_bytes_at zero a v mem = mem
put_bytes_at (suc n) a v mem = put_bytes_at n (a + 1) (v / 256) (store mem a (v % 256))

abbrev pub half : Memory → ℕ → ℕ
half = bytes_at 2

abbrev pub word : Memory → ℕ → ℕ
word = bytes_at 4

abbrev pub xword : Memory → ℕ → ℕ
xword = bytes_at 8

abbrev pub pt_load : ℕ
pt_load = 1

abbrev pub sht_symtab : ℕ
sht_symtab = 2

abbrev pub sht_rela : ℕ
sht_rela = 4

abbrev pub sht_rel : ℕ
sht_rel = 9

abbrev pub sht_dynsym : ℕ
sht_dynsym = 11

-- `Elf64_Ehdr` at `a`.
abbrev pub e_entry : Memory → ℕ → ℕ
e_entry mem a = xword mem (a + 24)

abbrev pub e_phoff : Memory → ℕ → ℕ
e_phoff mem a = xword mem (a + 32)

abbrev pub e_shoff : Memory → ℕ → ℕ
e_shoff mem a = xword mem (a + 40)

abbrev pub e_phnum : Memory → ℕ → ℕ
e_phnum mem a = half mem (a + 56)

abbrev pub e_shnum : Memory → ℕ → ℕ
e_shnum mem a = half mem (a + 60)

abbrev pub phdr_size : ℕ
phdr_size = 56

-- The fields of `Elf64_Phdr` that are read, without their prefix.
pub record Phdr : Type 0 where
  pub type : ℕ
  pub offset : ℕ
  pub vaddr : ℕ
  pub filesz : ℕ
  pub memsz : ℕ

unfoldable pub phdr_at : Memory → ℕ → Phdr
phdr_at mem a = record {
  type = word mem a;
  offset = xword mem (a + 8);
  vaddr = xword mem (a + 16);
  filesz = xword mem (a + 32);
  memsz = xword mem (a + 40);
}

abbrev pub shdr_size : ℕ
shdr_size = 64

-- The same of `Elf64_Shdr`.
pub record Shdr : Type 0 where
  pub type : ℕ
  pub offset : ℕ
  pub size : ℕ
  pub link : ℕ

unfoldable pub shdr_at : Memory → ℕ → Shdr
shdr_at mem a = record {
  type = word mem (a + 4);
  offset = xword mem (a + 24);
  size = xword mem (a + 32);
  link = word mem (a + 40);
}

-- The value of a symbol.
abbrev pub st_value : Memory → ℕ → ℕ
st_value mem a = xword mem (a + 8)

-- `Elf64_Rela`.
pub record Rela : Type 0 where
  pub offset : ℕ
  pub info : ℕ
  pub addend : ℕ

unfoldable pub rela_at : Memory → ℕ → Rela
rela_at mem a = record {
  offset = xword mem a;
  info = xword mem (a + 8);
  addend = xword mem (a + 16);
}
