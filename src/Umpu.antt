-- ===== src/Umpu.antt =====
-- The user's MPU regions: src/service/svr_umpu.c, and the functions of src/umpu.c that prepare a call.
use skibios.Prelude.{ℕ, ◌+◌, ◌%◌, Bool, ◌||◌, ◌==◌, ltb, if◌then◌else◌, u8, bit_or}
use skibios.Error.{
  error_none, error_mpu_unsupported, error_invalid_mpu_region, error_invalid_mpu_address,
}
use skibios.Kvar.{Kernel}
use skibios.Hardware.{write_reg, mputype, mpuctrl, mpurnr, mpurbar, mpurasr}
use skibios.Service.{Frame, Outcome, reply}

-- The writes between the two barriers; MPU_PRIVDEFENA | MPU_ENABLE is 5.
unfoldable pub set_region : Kernel → ℕ → ℕ → ℕ → Kernel
set_region k region address attributes =
    let k1 = write_reg mpurnr region (write_reg mpuctrl 0 k) in
    let k2 = write_reg mpurasr attributes (write_reg mpurbar address k1) in
    write_reg mpuctrl 5 (write_reg mpurnr 0 k2)

abbrev pub bad_region : ℕ → Bool
bad_region region = ltb region 2 || ltb 5 region

unfoldable pub svc_service_umpu_disable : Frame → Outcome
unfolding set_region
svc_service_umpu_disable fr =
    let k = fr.kernel in
    let region = fr.arguments 0 in
    if k.mem mputype == 0
    then reply fr k error_mpu_unsupported
    else (if bad_region region
        then reply fr k error_invalid_mpu_region
        else reply fr (set_region k region 0 0) error_none)

-- MPU_REGION_ENABLE is 1.
unfoldable pub svc_service_umpu_enable : Frame → Outcome
unfolding set_region
svc_service_umpu_enable fr =
    let k = fr.kernel in
    let region = fr.arguments 0 in
    let address = fr.arguments 1 in
    if k.mem mputype == 0
    then reply fr k error_mpu_unsupported
    else (if bad_region region
        then reply fr k error_invalid_mpu_region
        else (if address % 32 == 0
            then reply fr (set_region k region address (bit_or (fr.arguments 2) 1)) error_none
            else reply fr k error_invalid_mpu_address))

-- `region = region + 3;` on a `uint8_t`
unfoldable pub user_region : ℕ → ℕ
user_region region = u8 (region + 3)
