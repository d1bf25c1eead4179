-- ===== src/Exceptions/Examples.antt =====
-- The theorem on `init_exceptions` at a kernel that has just started.
use loof_os.Base.{arith}
use loof_os.State.Samples.{booted}
use loof_os.Exceptions.{Wrappers, init_exceptions}
use loof_os.Exceptions.Gates.{Ascending, gates, Handles, init_exceptions-Handles}

abbrev wrappers : Wrappers
wrappers = record {
  divbyzero = 0xc010_0000;
  debug = 0xc010_0010;
  nonmask = 0xc010_0020;
  breakpoint = 0xc010_0030;
  overflow = 0xc010_0040;
  boundrange = 0xc010_0050;
  invalop = 0xc010_0060;
  nodevice = 0xc010_0070;
  doublefault = 0xc010_0080;
  invaltss = 0xc010_0090;
  nosegment = 0xc010_00a0;
  stackseg = 0xc010_00b0;
  genprotection = 0xc010_00c0;
}

wrappers-Ascending : Ascending 0 (gates wrappers)
wrappers-Ascending = ground arith

init_exceptions-Handles_example : Handles wrappers booted (init_exceptions wrappers booted)
init_exceptions-Handles_example =
    init_exceptions-Handles wrappers booted wrappers-Ascending (omega arith)
