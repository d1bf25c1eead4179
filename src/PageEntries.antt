-- ===== src/PageEntries.antt =====
-- arch/x86/mm/paging.h: the entries of page directories and tables, as records and as the words that
-- hold them.
use loof_os.Base.{ℕ, ◌+◌, ◌*◌, ◌/◌, ◌%◌}

-- `pde_4mib`
pub record Pde4Mib : Type 0 where
  pub present : ℕ
  pub rw' : ℕ
  pub us : ℕ
  pub pwt : ℕ
  pub pcd : ℕ
  pub a : ℕ
  pub d : ℕ
  pub ps : ℕ
  pub g : ℕ
  pub ignored : ℕ
  pub pat : ℕ
  pub highaddr : ℕ
  pub lowaddr : ℕ

-- `pde_4kib`
pub record Pde4Kib : Type 0 where
  pub present : ℕ
  pub rw' : ℕ
  pub us : ℕ
  pub pwt : ℕ
  pub pcd : ℕ
  pub a : ℕ
  pub ignored : ℕ
  pub ps : ℕ
  pub ignored2 : ℕ
  pub addr : ℕ

-- `pte_4kib`
pub record Pte4Kib : Type 0 where
  pub present : ℕ
  pub rw' : ℕ
  pub us : ℕ
  pub pwt : ℕ
  pub pcd : ℕ
  pub a : ℕ
  pub d : ℕ
  pub pat : ℕ
  pub g : ℕ
  pub ignored : ℕ
  pub addr : ℕ

-- The words that hold them: the bit-fields, lowest first.
unfoldable pub encode_pde_4mib : Pde4Mib → ℕ
encode_pde_4mib e =
    e.present % 2
    + e.rw' % 2 * 2
    + e.us % 2 * 4
    + e.pwt % 2 * 8
    + e.pcd % 2 * 16
    + e.a % 2 * 32
    + e.d % 2 * 64
    + e.ps % 2 * 128
    + e.g % 2 * 256
    + e.ignored % 8 * 512
    + e.pat % 2 * 4096
    + e.highaddr % 512 * 8192
    + e.lowaddr % 1024 * 4194304

unfoldable pub encode_pde_4kib : Pde4Kib → ℕ
encode_pde_4kib e =
    e.present % 2
    + e.rw' % 2 * 2
    + e.us % 2 * 4
    + e.pwt % 2 * 8
    + e.pcd % 2 * 16
    + e.a % 2 * 32
    + e.ignored % 2 * 64
    + e.ps % 2 * 128
    + e.ignored2 % 16 * 256
    + e.addr % 1048576 * 4096

unfoldable pub encode_pte_4kib : Pte4Kib → ℕ
encode_pte_4kib e =
    e.present % 2
    + e.rw' % 2 * 2
    + e.us % 2 * 4
    + e.pwt % 2 * 8
    + e.pcd % 2 * 16
    + e.a % 2 * 32
    + e.d % 2 * 64
    + e.pat % 2 * 128
    + e.g % 2 * 256
    + e.ignored % 8 * 512
    + e.addr % 1048576 * 4096

unfoldable pub decode_pde_4kib : ℕ → Pde4Kib
decode_pde_4kib w = record {
  present = w % 2;
  rw' = w / 2 % 2;
  us = w / 4 % 2;
  pwt = w / 8 % 2;
  pcd = w / 16 % 2;
  a = w / 32 % 2;
  ignored = w / 64 % 2;
  ps = w / 128 % 2;
  ignored2 = w / 256 % 16;
  addr = w / 4096 % 1048576;
}

unfoldable pub decode_pte_4kib : ℕ → Pte4Kib
decode_pte_4kib w = record {
  present = w % 2;
  rw' = w / 2 % 2;
  us = w / 4 % 2;
  pwt = w / 8 % 2;
  pcd = w / 16 % 2;
  a = w / 32 % 2;
  d = w / 64 % 2;
  pat = w / 128 % 2;
  g = w / 256 % 2;
  ignored = w / 512 % 8;
  addr = w / 4096 % 1048576;
}

abbrev pub no_pde_4mib : Pde4Mib
no_pde_4mib = record {
  present = 0;
  rw' = 0;
  us = 0;
  pwt = 0;
  pcd = 0;
  a = 0;
  d = 0;
  ps = 0;
  g = 0;
  ignored = 0;
  pat = 0;
  highaddr = 0;
  lowaddr = 0;
}

-- The entry of a present table that users may write, and of such a page.
abbrev pub table_entry : ℕ → Pde4Kib
table_entry addr = record {
  present = 1;
  rw' = 1;
  us = 1;
  pwt = 0;
  pcd = 0;
  a = 0;
  ignored = 0;
  ps = 0;
  ignored2 = 0;
  addr = addr;
}

abbrev pub page_entry : ℕ → Pte4Kib
page_entry addr = record {
  present = 1;
  rw' = 1;
  us = 1;
  pwt = 0;
  pcd = 0;
  a = 0;
  d = 0;
  pat = 0;
  g = 0;
  ignored = 0;
  addr = addr;
}

abbrev pub no_page : Pte4Kib
no_page = record (page_entry 0) { present = 0; rw' = 0; us = 0 }
