-- ===== src/Tests/Copies.antt =====
-- Copies and symbols at concrete arguments (src/pbox/pbox.c).
use sbox.Prelude.{
  ℕ, ◌+◌, ◌-◌, ◌≡◌, List, ltb, leb, ◌&&◌, if◌then◌else◌, length, replicate, get_or, some, arith,
}
use sbox.Dyfn.Call.{Arch, zero_word}
use sbox.Dyfn.Closure.{Closures, no_info}
use sbox.Channel.{State}
use sbox.Copy.{Memory, Memcpy, Copied, copy_to, copy_from}
use sbox.Copy.Memory.{IsMemcpy}
use sbox.Copy.To.{copy_to_lem}
use sbox.Copy.From.{copy_from_lem}
use sbox.Sandbox.Dispatch.{Environment, Message}

-- memcpy on ranges that do not overlap.
abbrev cpy : Memcpy
cpy mem d s n a = if leb d a && ltb a (d + n) then mem (s + (a - d)) else mem a

cpy-IsMemcpy : IsMemcpy cpy
cpy-IsMemcpy = record {
  inside = λ mem d s n i apart lt. let k : d + i - d ≡ i = omega arith in ground (arith, k);
  outside = λ mem d s n j apart out. ground arith;
}

abbrev mem : Memory
mem a = a + 1

copy_to_lem_example :
    (mem' : Memory) × (copy_to cpy 77 (some State.idle) 100000 mem 5000 (replicate 4100 8) 4100
      ≡ Copied.done mem')
    × (mem' 9099
        ≡ (if leb 5000 9099 && ltb 9099 9100 then get_or (replicate 4100 8) 4099 0 else mem 9099))
copy_to_lem_example =
    copy_to_lem cpy 77 100000 mem 5000 (replicate 4100 8) 4100 9099 cpy-IsMemcpy (omega arith)
      (omega arith) (omega arith) (omega arith) (omega arith)

copy_from_lem_example :
    (mem' : Memory) × (dest' : List ℕ) × (copy_from cpy 77
        (some State.idle)
        100000
        mem
        (replicate 6 0)
        5000
        4
      ≡ Copied.done (mem', dest'))
    × (length dest' ≡ 6)
    × (get_or dest' 3 0 ≡ (if ltb 3 4 then mem 5003 else get_or (replicate 6 0) 3 0))
    × (mem' 5003 ≡ mem 5003)
copy_from_lem_example =
    copy_from_lem cpy 77 100000 mem (replicate 6 0) 5000 4 3 5003 cpy-IsMemcpy (omega arith)
      (omega arith) (omega arith) (omega arith) (omega arith)

-- The linker knows one name.
abbrev environment : Environment
environment = record {
  arch = Arch.x86_64;
  dlsym = λ name. if leb 3 (length name) then 4096 else 0;
  dyfn_call = λ call. record { int_val = zero_word; float_val = zero_word };
  message = Message.failed;
  stubs = λ n. n;
}

abbrev no_closures : Closures
no_closures = record { info = replicate 64 no_info; count = 0 }
