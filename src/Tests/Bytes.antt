-- ===== src/Tests/Bytes.antt =====
-- A store whose byte at every address is the address's low byte.
use boreal_os.Base.{◌%◌, ◌^◌, ◌≡◌}
use boreal_os.Base.Store.{Store}
use boreal_os.Memory.Memops.{memmove, memcmp}
use boreal_os.Memory.Memops.Copies.{moved, Compared, memmove_lem, memcmp-Compared}

abbrev low_bytes : Store
low_bytes a = a % 2 ^ 8

-- The destination begins inside the source.
memmove_example : memmove 104 100 8 low_bytes 107 ≡ moved 104 100 8 low_bytes 107
memmove_example = memmove_lem 104 100 8 107 low_bytes

memcmp_example : Compared (memcmp 100 200 8 low_bytes) 0 8 100 200 low_bytes
memcmp_example = memcmp-Compared 100 200 8 low_bytes
