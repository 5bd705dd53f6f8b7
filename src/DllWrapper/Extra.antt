-- ===== src/DllWrapper/Extra.antt =====
-- The methods of J2534DllWrapper without parameters: the extensions of Drew Technologies
-- (j2534_OverIP/j2534dllwrapper.cpp).
use j2534_oip_wrapper.Prelude.{[], ◌∷◌}
use j2534_oip_wrapper.Message.{ok}
use j2534_oip_wrapper.Report
use j2534_oip_wrapper.Report.{Fn, entry, fn_key, func_name}
use j2534_oip_wrapper.DllWrapper.{Wrapping, only_retval}

-- The body that these methods share, with the function that it names in its report.
abbrev reporting : (f : Fn) → (named : Fn) → Wrapping f
reporting f named = record {
  label = named;
  before = λ args. ok (entry func_name (fn_key named) ∷ []);
  missing = [];
  after = only_retval;
}

unfoldable pub pass_thru_ex_configure_wifi : Wrapping Report.pass_thru_ex_configure_wifi
pass_thru_ex_configure_wifi =
    reporting Report.pass_thru_ex_configure_wifi Report.pass_thru_ex_configure_wifi

unfoldable pub pass_thru_ex_device_watchdog : Wrapping Report.pass_thru_ex_device_watchdog
pass_thru_ex_device_watchdog =
    reporting Report.pass_thru_ex_device_watchdog Report.pass_thru_ex_device_watchdog

unfoldable pub pass_thru_ex_download_cyphered_flash_data :
    Wrapping Report.pass_thru_ex_download_cyphered_flash_data
pass_thru_ex_download_cyphered_flash_data =
    reporting Report.pass_thru_ex_download_cyphered_flash_data
      Report.pass_thru_ex_download_cyphered_flash_data

-- The key and the label are those of PassThruExDownloadCypheredFlashData.
unfoldable pub pass_thru_ex_erase_flash : Wrapping Report.pass_thru_ex_erase_flash
pass_thru_ex_erase_flash =
    reporting Report.pass_thru_ex_erase_flash Report.pass_thru_ex_download_cyphered_flash_data

unfoldable pub pass_thru_ex_initiate_cyphered_flash_download :
    Wrapping Report.pass_thru_ex_initiate_cyphered_flash_download
pass_thru_ex_initiate_cyphered_flash_download =
    reporting Report.pass_thru_ex_initiate_cyphered_flash_download
      Report.pass_thru_ex_initiate_cyphered_flash_download

unfoldable pub pass_thru_ex_read_flash : Wrapping Report.pass_thru_ex_read_flash
pass_thru_ex_read_flash = reporting Report.pass_thru_ex_read_flash Report.pass_thru_ex_read_flash

unfoldable pub pass_thru_ex_reset_flash : Wrapping Report.pass_thru_ex_reset_flash
pass_thru_ex_reset_flash = reporting Report.pass_thru_ex_reset_flash Report.pass_thru_ex_reset_flash

unfoldable pub pass_thru_ex_run_self_test : Wrapping Report.pass_thru_ex_run_self_test
pass_thru_ex_run_self_test =
    reporting Report.pass_thru_ex_run_self_test Report.pass_thru_ex_run_self_test

unfoldable pub pass_thru_ex_write_flash : Wrapping Report.pass_thru_ex_write_flash
pass_thru_ex_write_flash = reporting Report.pass_thru_ex_write_flash Report.pass_thru_ex_write_flash

unfoldable pub pass_thru_load_firmware : Wrapping Report.pass_thru_load_firmware
pass_thru_load_firmware = reporting Report.pass_thru_load_firmware Report.pass_thru_load_firmware

unfoldable pub pass_thru_recover_firmware : Wrapping Report.pass_thru_recover_firmware
pass_thru_recover_firmware =
    reporting Report.pass_thru_recover_firmware Report.pass_thru_recover_firmware
