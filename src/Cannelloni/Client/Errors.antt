-- ===== src/Cannelloni/Client/Errors.antt =====
-- PassThruGetLastError of j2534_OverIP/j2534cannelloniclient.cpp.
pub mod Text
use j2534_oip_wrapper.Prelude.{
  ℕ, ◌-◌, List, [], ◌∷◌, ◌++◌, Bool, true, false, Option, none, some, length, take, replicate, ◌==◌,
  if◌then◌else◌,
}
use j2534_oip_wrapper.Message.{status_noerror, err_null_parameter}
use j2534_oip_wrapper.Report.{
  entry, int, text, fn_key, pass_thru_get_last_error as last_error_fn, func_name, param1,
  retval_long, error,
}
use j2534_oip_wrapper.Cannelloni.Client.{
  Client, error_description_null, error_text, report, error_entry,
}

-- `strncpy` of a text with no zero byte: cut or filled with zeros to `n` bytes.
unfoldable pub strncpy : ℕ → List ℕ → List ℕ
strncpy n str = take n str ++ replicate (n - length str) 0

-- The flag says that `pErrorDescription` is not null; the last result is what is written there.
-- The error path leaves `lastErrorLong`.
unfoldable pub pass_thru_get_last_error : Client → Bool → Client × ℕ × Option (List ℕ)
pass_thru_get_last_error c has_buffer =
    let puts =
      entry func_name (fn_key last_error_fn) ∷ entry param1 (text (error_text c.last_error)) ∷ [] in
    let retval = if c.last_error_long == 0 then status_noerror else c.last_error_long in
    if has_buffer
    then (
      report c last_error_fn (
          puts
          ++ entry retval_long (int retval) ∷ entry error (text (error_text c.last_error)) ∷ []),
      retval,
      some (strncpy 79 (error_text c.last_error) ++ 0 ∷ []),
    )
    else (
      report (record c { last_error = error_description_null }) last_error_fn
          (puts ++ error_entry last_error_fn error_description_null ∷ []),
      err_null_parameter,
      none,
    )
