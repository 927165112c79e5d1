-- ===== src/Gdt/Tests.antt =====
-- The descriptor table at a concrete state.
use os_itsc.Gdt.Tss.{Gdt}

abbrev zero_table : Gdt
zero_table i = record {
  limit_low = 0;
  base_low = 0;
  base_middle = 0;
  access = 0;
  granularity = 0;
  base_high = 0;
}
