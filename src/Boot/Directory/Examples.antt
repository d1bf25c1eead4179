-- ===== src/Boot/Directory/Examples.antt =====
-- The directory of stage 2 at an address where nothing was written.
use loof_os.Base.{arith}
use loof_os.Machine.{Mem}
use loof_os.Boot.Directory.{map_memory}
use loof_os.Boot.Directory.Translate.{MapsMemory, map_memory-MapsMemory}

abbrev cleared : Mem
cleared a = 0

map_memory-MapsMemory_example : MapsMemory 0x9000 cleared (map_memory 0x9000 cleared)
map_memory-MapsMemory_example = map_memory-MapsMemory 0x9000 cleared (omega arith)
