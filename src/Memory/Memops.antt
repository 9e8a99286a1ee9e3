-- ===== src/Memory/Memops.antt =====
-- kernel/memops.cpp: the byte routines that the compiler calls. A pointer is the address of its first
-- byte, and no object wraps around the end of memory.
pub mod Copies
use boreal_os.Base.{ℕ, zero, suc, ◌+◌, ltb, ◌==◌, if◌then◌else◌, u8}
use boreal_os.Base.Store.{Store, store}

-- The rising loop of `memcpy` and `memmove`, with `left` rounds to go.
unfoldable pub copy_up : ℕ → ℕ → ℕ → ℕ → Store → Store
copy_up zero i dest src m = m
copy_up (suc left) i dest src m = copy_up left (i + 1) dest src (store m (dest + i) (m (src + i)))

-- The falling loop of `memmove`: it writes index `i - 1`, then goes on with `i - 1`.
unfoldable pub copy_down : ℕ → ℕ → ℕ → Store → Store
copy_down zero dest src m = m
copy_down (suc i) dest src m = copy_down i dest src (store m (dest + i) (m (src + i)))

unfoldable pub memcpy : ℕ → ℕ → ℕ → Store → Store
memcpy dest src n m = copy_up n 0 dest src m

unfoldable pub memmove : ℕ → ℕ → ℕ → Store → Store
memmove dest src n m =
    if ltb dest src
    then copy_up n 0 dest src m
    else if ltb src dest
    then copy_down n dest src m
    else m

unfoldable pub set_loop : ℕ → ℕ → ℕ → ℕ → Store → Store
set_loop zero i s c m = m
set_loop (suc left) i s c m = set_loop left (i + 1) s c (store m (s + i) (u8 c))

unfoldable pub memset : ℕ → ℕ → ℕ → Store → Store
memset s c n m = set_loop n 0 s c m

-- The sign of the result of `memcmp`: -1, 0 or 1.
pub data Sign : Type 0 where
  below : Sign
  same : Sign
  above : Sign

unfoldable pub compare_loop : ℕ → ℕ → ℕ → ℕ → Store → Sign
compare_loop zero i s1 s2 m = same
compare_loop (suc left) i s1 s2 m =
    if m (s1 + i) == m (s2 + i)
    then compare_loop left (i + 1) s1 s2 m
    else if ltb (m (s1 + i)) (m (s2 + i))
    then below
    else above

unfoldable pub memcmp : ℕ → ℕ → ℕ → Store → Sign
memcmp s1 s2 n m = compare_loop n 0 s1 s2 m
