-- ===== src/Memory/Pmm/Bitmap.antt =====
-- The bit of a page in a bitmap that starts at an address of physical memory: `byteIndex` is
-- `page / 8` and `bitIndex` is `page % 8`.
use boreal_os.Base.{
  ℕ, ◌+◌, ◌/◌, ◌%◌, ◌<◌, ◌≡◌, ◌≢◌, fun_ext, Bool, true, false, ◌==◌, if◌then◌else◌, arith,
}
use boreal_os.Base.Bits.{
  test_bit, set_bit, clear_bit, test_bit-set_bit, test_bit-clear_bit, clear_bit-set_bit_comm,
  set_bit-lt, clear_bit-lt, clear_bit-set_bit,
}
use boreal_os.Base.Store.{Store, store, store_ne}

unfoldable pub page_bit : ℕ → ℕ → Store → Bool
page_bit base page m = test_bit (m (base + page / 8)) (page % 8)

unfoldable pub set_page : ℕ → ℕ → Store → Store
set_page base page m = store m (base + page / 8) (set_bit (m (base + page / 8)) (page % 8))

unfoldable pub clear_page : ℕ → ℕ → Store → Store
clear_page base page m = store m (base + page / 8) (clear_bit (m (base + page / 8)) (page % 8))

abbrev pub IsBytes : Store → Type 0
IsBytes m = (a : ℕ) → m a < 256

pub set_page-IsBytes : (base page : ℕ) (m : Store) → IsBytes m → IsBytes (set_page base page m)
unfolding set_page store
set_page-IsBytes base page m h a =
    ground (arith, h a, set_bit-lt (m (base + page / 8)) (page % 8) (h _) (omega arith))

pub clear_page-IsBytes : (base page : ℕ) (m : Store) → IsBytes m → IsBytes (clear_page base page m)
unfolding clear_page store
clear_page-IsBytes base page m h a =
    ground (arith, h a, clear_bit-lt (m (base + page / 8)) (page % 8) (h _) (omega arith))

-- A write to another byte leaves a page's bit alone.
pub page_bit-set_page_apart :
    (base other p q : ℕ) (m : Store)
    → base + p / 8 ≢ other + q / 8
    → page_bit other q (set_page base p m) ≡ page_bit other q m
unfolding page_bit set_page
page_bit-set_page_apart base other p q m h = rw (store_ne m _ _ _ h)

pub page_bit-clear_page_apart :
    (base other p q : ℕ) (m : Store)
    → base + p / 8 ≢ other + q / 8
    → page_bit other q (clear_page base p m) ≡ page_bit other q m
unfolding page_bit clear_page
page_bit-clear_page_apart base other p q m h = rw (store_ne m _ _ _ h)

module _ (base p q : ℕ) (m : Store) (bytes : IsBytes m) where
  pub page_bit-set_page :
      page_bit base q (set_page base p m) ≡ (if p == q then true else page_bit base q m)
  unfolding page_bit set_page store
  page_bit-set_page = ground (
    arith,
    test_bit-set_bit (m (base + p / 8)) (p % 8) (q % 8) (bytes _) (omega arith) (omega arith),
  )

  pub page_bit-clear_page :
      page_bit base q (clear_page base p m) ≡ (if p == q then false else page_bit base q m)
  unfolding page_bit clear_page store
  page_bit-clear_page = ground (
    arith,
    test_bit-clear_bit (m (base + p / 8)) (p % 8) (q % 8) (bytes _) (omega arith) (omega arith),
  )

  -- Different pages are written in either order.
  pub clear_page-set_page_comm :
      p ≢ q → clear_page base q (set_page base p m) ≡ set_page base p (clear_page base q m)
  unfolding set_page clear_page store
  clear_page-set_page_comm ne = fun_ext λ x. ground (
    arith,
    clear_bit-set_bit_comm (m (base + p / 8)) (p % 8) (q % 8) (bytes _) (omega arith) (omega arith),
  )

module _ (base p : ℕ) (m : Store) (bytes : IsBytes m) where
  pub clear_page-set_page : page_bit base p m ≡ false → clear_page base p (set_page base p m) ≡ m
  unfolding page_bit set_page clear_page store
  clear_page-set_page h =
      fun_ext
        λ x. ground (arith, clear_bit-set_bit (m (base + p / 8)) (p % 8) (bytes _) (omega arith) h)
