-- ===== src/Interrupts/Lapic/Register.antt =====
-- `LAPICRegister` of kernel/Interrupts/LAPIC.h.
use boreal_os.Base.{ℕ}

abbrev pub error_status : ℕ
error_status = 0x280

abbrev pub spirv : ℕ
spirv = 0xF0

abbrev pub eoi : ℕ
eoi = 0xB0

abbrev pub tpr : ℕ
tpr = 0x80

abbrev pub initial_count : ℕ
initial_count = 0x380

abbrev pub divide_config : ℕ
divide_config = 0x3E0

abbrev pub current_count : ℕ
current_count = 0x390

abbrev pub icr_low : ℕ
icr_low = 0x300

abbrev pub icr_high : ℕ
icr_high = 0x310
