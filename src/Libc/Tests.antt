-- ===== src/Libc/Tests.antt =====
-- Runs of the libc functions, and the theorems applied to them.
use nedoos.Prelude.{◌≡◌, refl, inr, Array, arith}
use nedoos.Libc.{memcpy, memmove, memcmp, less}
use nedoos.Libc.Memmove.{memmove-get, memcpy-memmove}

-- The byte at each address is the address.
abbrev ramp : Array
ramp i = i

-- Copying upwards into an overlapping region repeats what was just written.
memcpy_overlap : memcpy ramp 12 10 4 15 ≡ 11
unfolding memcpy
memcpy_overlap = refl

memmove_overlap : memmove ramp 12 10 4 15 ≡ 13
unfolding memmove
memmove_overlap = refl

memcmp_runs : memcmp ramp 3 4 2 ≡ less
unfolding memcmp
memcmp_runs = refl

memmove-get_example : memmove ramp 12 10 4 15 ≡ 13
memmove-get_example = memmove-get ramp 12 10 4 15

memcpy-memmove_example : memcpy ramp 14 10 4 15 ≡ memmove ramp 14 10 4 15
memcpy-memmove_example = memcpy-memmove ramp 14 10 4 15 (inr (omega arith))
