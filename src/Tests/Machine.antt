-- ===== src/Tests/Machine.antt =====
-- Two processors of four cores with two threads each.
use deamon.Common.{◌*◌, ◌%◌, ◌^◌, ◌≡◌, refl, true, false, none, arith}
use deamon.Common.Outcome.{ok}
use deamon.Xcpuinfo.{Hwloc, CpuInfo, init_info, xcpuinfo_success, xcpuinfo_init, xcpuinfo_init_even}

abbrev machine : Hwloc
machine = record {
  init_fails = false;
  load_fails = false;
  groups = none;
  sockets = 2;
  cores = 8;
  units = 16;
}

xcpuinfo_init_even_example :
    (info' : CpuInfo) × (xcpuinfo_init machine init_info ≡ ok (xcpuinfo_success, info'))
    × (info'.initialized ≡ true)
    × (info'.sockets ≡ 2 % 2 ^ 16)
    × (info'.cores ≡ 4 % 2 ^ 16)
    × (info'.threads ≡ (2 * 2) % 2 ^ 16)
xcpuinfo_init_even_example =
    xcpuinfo_init_even machine 2 4 2 init_info refl refl refl (omega arith) (omega arith) refl refl
      refl
