-- ===== src/Cannelloni/Client/Errors/Text.antt =====
-- What PassThruGetLastError of j2534_OverIP/j2534cannelloniclient.cpp tells its caller.
use j2534_oip_wrapper.Prelude.{
  ℕ, zero, suc, ◌-◌, ◌≡◌, ◌≤◌, refl, ap, arith, List, [], ◌∷◌, ◌++◌, true, none, some, length, take,
  drop, replicate, append_assoc, length-append, length-take, length-replicate, replicate-append_one,
  drop-append, if◌then◌else◌, ◌==◌,
}
use j2534_oip_wrapper.Prelude.Assoc.{find}
use j2534_oip_wrapper.Message.{status_noerror, err_invalid_device_id}
use j2534_oip_wrapper.Report.{reads_freed, is_freed}
use j2534_oip_wrapper.Cannelloni.Client.{
  read_freed, error_entry, Client, device_id_not_found, error_text, report,
}
use j2534_oip_wrapper.Cannelloni.Client.Channels.{pass_thru_close}
use j2534_oip_wrapper.Cannelloni.Client.Errors.{strncpy, pass_thru_get_last_error}

take_long : (n : ℕ) (xs : List ℕ) → length xs ≤ n → take n xs ≡ xs
take_long zero [] h = refl
take_long zero (x ∷ xs) h = absurd (omega arith)
take_long (suc n) [] h = refl
take_long (suc n) (x ∷ xs) h = ap (◌∷◌ x) (take_long n xs (omega arith))

-- With a buffer PassThruGetLastError returns the recorded code and, where the text of the last error
-- has at most 79 characters, writes exactly 80 bytes: the text, then zeros.
pub last_error_written :
    (c : Client)
    → length (error_text c.last_error) ≤ 79
    → let (c', status, out) = pass_thru_get_last_error c true in
      (status ≡ c.last_error_long)
      × (out
          ≡ some (error_text c.last_error ++ replicate (80 - length (error_text c.last_error)) 0))
      × (c'.last_error ≡ c.last_error)
      × (c'.last_error_long ≡ c.last_error_long)
unfolding pass_thru_get_last_error strncpy report
last_error_written c h =
    (code c.last_error_long, ap some (text (error_text c.last_error) h), refl, refl)
  where
    code : (n : ℕ) → (if n == 0 then status_noerror else n) ≡ n
    code n = ground arith

    text :
        (t : List ℕ)
        → length t ≤ 79
        → (take 79 t ++ replicate (79 - length t) 0) ++ 0 ∷ [] ≡ t ++ replicate (80 - length t) 0
    text t h =
        let one_more : 80 - length t ≡ suc (79 - length t) = omega arith in
        rw
          (
            take_long 79 t h,
            append_assoc t (replicate (79 - length t) 0) (0 ∷ []),
            replicate-append_one {A = ℕ} (79 - length t) 0,
            one_more,
          )
          refl

-- However long the text is, the 80 bytes that are written end with a zero.
pub last_error_terminated :
    (c : Client)
    → (b : List ℕ) × ((pass_thru_get_last_error c true).2 ≡ some b)
      × (length b ≡ 80)
      × (drop 79 b ≡ 0 ∷ [])
unfolding pass_thru_get_last_error strncpy report
last_error_terminated c =
    let t : List ℕ = error_text c.last_error in
    let whole : length (take 79 t ++ replicate (79 - length t) 0) ≡ 79 = omega (
      arith,
      length-append (take 79 t) (replicate (79 - length t) 0),
      length-take 79 t,
      length-replicate {A = ℕ} (79 - length t) 0,
    ) in
    (
      _,
      refl,
      omega (arith, length-append (take 79 t ++ replicate (79 - length t) 0) (0 ∷ []), whole),
      rw whole at (drop-append (take 79 t ++ replicate (79 - length t) 0) (0 ∷ [])),
    )

-- A close of a device that is not open makes its report of a text that has been freed. If that read
-- does no harm it returns ERR_INVALID_DEVICE_ID, and PassThruGetLastError then writes the text of that
-- failure with zeros behind it, but returns the code that it would have returned before the close.
pub close_leaves_code :
    (c : Client) (id : ℕ)
    → find id c.channels ≡ none
    → let (c', status) = pass_thru_close c id in
      let text = error_text device_id_not_found in
      (read_freed c' ≡ true)
      × (status ≡ err_invalid_device_id)
      × ((pass_thru_get_last_error c' true).2 ≡ some (text ++ replicate (80 - length text) 0))
      × ((pass_thru_get_last_error c' true).1 ≡ (pass_thru_get_last_error c true).1)
unfolding pass_thru_close pass_thru_get_last_error report read_freed reads_freed is_freed
    error_entry strncpy error_text replicate
close_leaves_code c id absent = rw (absent, pass_thru_close) (refl, refl, refl, refl)
