-- ===== src/Strings/Examples.antt =====
-- Runs of the byte routines, and their theorems at concrete memories.
use loof_os.Base.{ℕ, ◌+◌, ◌%◌, ◌≡◌, refl, arith, inl}
use loof_os.Machine.{Mem, Run, ok, undefined, out_of_fuel, write}
use loof_os.Strings.{
  load_byte, store_byte, memset_loop, memset, memcpy_loop, memcpy, memcmp_loop, memcmp,
}
use loof_os.Strings.Copy.{Writes, memset-Writes, memcpy-Writes}
use loof_os.Strings.Compare.{Compares, memcmp-Compares}

runs : Run Mem ℕ → Run Mem ℕ
unfolding write load_byte store_byte memset_loop memset memcpy_loop memcpy memcmp_loop memcmp
runs r = r

abbrev counting : Mem
counting x = x

abbrev mem_of : Run Mem ℕ → Mem
mem_of (ok _ h) = h
mem_of undefined = counting
mem_of out_of_fuel = counting

-- A copy into the source's own tail repeats its first byte.
overlap : (mem_of (memcpy 11 10 3 counting)) 13 ≡ 10
unfolding runs
overlap = refl

-- 5 - 7 as an `int`.
less : memcmp 5 7 2 counting ≡ ok 0xffff_fffe counting
unfolding runs
less = refl

memset-Writes_example : Writes 100 100 8 (λ j. 0x12) counting (memset 100 0x312 8 counting)
memset-Writes_example = memset-Writes 100 0x312 8 counting (omega arith)

memcpy-Writes_example :
    Writes 10 10 5 (λ j. counting (12 + j) % 256) counting (memcpy 10 12 5 counting)
memcpy-Writes_example =
    memcpy-Writes 10 12 5 counting (omega arith) (omega arith) (inl (omega arith))

memcmp-Compares_example : Compares counting 5 7 0 2 (memcmp 5 7 2 counting)
memcmp-Compares_example = memcmp-Compares 5 7 2 counting (omega arith) (omega arith)
