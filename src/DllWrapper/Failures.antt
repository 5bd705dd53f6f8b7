-- ===== src/DllWrapper/Failures.antt =====
-- What a caller of J2534DllWrapper meets where the DLL has no function, or hands a null text back.
use j2534_oip_wrapper.Prelude.{
  ℕ, arith, ◌≡◌, refl, ◌∙◌, ◌⊎◌, inl, inr, List, [], ◌∷◌, ◌++◌, Bool, true, false, Option, none,
  some,
}
use j2534_oip_wrapper.Message.{ok, fault, null_pointer, uninitialised, use_after_free}
use j2534_oip_wrapper.Report
use j2534_oip_wrapper.Report.{Fn, Put, entry, error, not_found_in_dll, reads_freed, is_freed}
use j2534_oip_wrapper.Interface.{Args, Implementation, Text, deref}
use j2534_oip_wrapper.DllWrapper.{
  Wrapper, Pointer, indeterminate, null, new_wrapper, assign_functions, load_function, load_dll,
  forward, wrapped,
}
use j2534_oip_wrapper.DllWrapper.Queries.{car_daq_puts, pass_thru_get_next_car_daq}
use j2534_oip_wrapper.DllWrapper.Methods.{wrapping, methods}
use j2534_oip_wrapper.DllWrapper.Readable.{Readable, Ends-value}
use j2534_oip_wrapper.DllWrapper.Reports.{before-Ends}
use j2534_oip_wrapper.DllWrapper.Transparent.{IsLookedUp, assign_functions-Bound, methods-before}

-- A function that is looked up and not found.
null_function :
    (exported : Fn → Bool) (old : Fn → Pointer) (f : Fn)
    → IsLookedUp f
    → exported f ≡ false
    → assign_functions exported old f ≡ null
unfolding assign_functions load_function
null_function exported old Report.pass_thru_read_details l e = absurd l
null_function exported old f l e = rw e refl

-- The text for a missing function is read after it has been freed, whatever stands before it.
reads_freed-last :
    (puts : List Put) (f : Fn) → reads_freed (puts ++ entry error (not_found_in_dll f) ∷ []) ≡ true
unfolding reads_freed is_freed
reads_freed-last [] f = refl
reads_freed-last (p ∷ ps) f = ground (arith, reads_freed-last ps f)

module _ {S : Type 0} (dll : Implementation S) where
  forward-null :
      (f : Fn) (args : Args f) (w : Wrapper S) (puts : List Put)
      → w.functions f ≡ null
      → forward dll f (wrapping f) puts args w ≡ fault use_after_free
  unfolding forward
  forward-null f args w puts p =
      rw (p, forward, reads_freed-last (puts ++ (wrapping f).missing) f) refl

  forward-indeterminate :
      (f : Fn) (args : Args f) (w : Wrapper S) (puts : List Put)
      → w.functions f ≡ indeterminate
      → forward dll f (wrapping f) puts args w ≡ fault uninitialised
  unfolding forward
  forward-indeterminate f args w puts p = rw (p, forward) refl

  -- Where loadDll has assigned the pointers from a DLL that lacks a function it looks up, a call of
  -- that function with readable arguments does not return ERR_NOT_SUPPORTED: its report is made of a
  -- text that has been freed.
  pub missing_function :
      (exported : Fn → Bool) (old : Fn → Pointer) (f : Fn) (args : Args f) (w : Wrapper S)
      → IsLookedUp f
      → exported f ≡ false
      → Readable f args
      → methods dll f args (record w { functions = assign_functions exported old })
        ≡ fault use_after_free
  missing_function exported old f args w l e h =
      let w' : Wrapper S = record w { functions = assign_functions exported old } in
      let (puts, b) = Ends-value ((wrapping f).before args) (before-Ends f args h) in
      methods-before dll f args w' puts b
      ∙ forward-null f args w' puts (null_function exported old f l e)

  -- If LoadLibrary fails in a new wrapper, a call of any function with readable arguments faults on a
  -- function pointer that was never set; so does PassThruReadDetails in a new wrapper whether or not
  -- LoadLibrary fails.
  pub unset_pointer_faults :
      (loads : Bool) (exported : Fn → Bool) (path : Text) (this : ℕ) (s : S) (f : Fn)
      (args : Args f)
      → (loads ≡ false) ⊎ (f ≡ Report.pass_thru_read_details)
      → Readable f args
      → methods dll f args (load_dll loads exported path (new_wrapper this s)).0
        ≡ fault uninitialised
  unfolding load_dll new_wrapper assign_functions
  unset_pointer_faults loads exported path this s f args c h =
      let w : Wrapper S = (load_dll loads exported path (new_wrapper this s)).0 in
      let (puts, b) = Ends-value ((wrapping f).before args) (before-Ends f args h) in
      methods-before dll f args w puts b ∙ forward-indeterminate f args w puts (unset loads f c)
    where
      unset :
          (loads : Bool) (f : Fn)
          → (loads ≡ false) ⊎ (f ≡ Report.pass_thru_read_details)
          → (load_dll loads exported path (new_wrapper this s)).0.functions f ≡ indeterminate
      unset false f c = refl
      unset true f (inl e) = absurd (cc e)
      unset true f (inr e) = rw e refl

  -- A DLL that ends its enumeration with a null `*name` returns to a caller that calls it
  -- directly. The same call through the wrapper reads the null text for its report.
  pub enumeration_end_faults :
      (exported : Fn → Bool) (path : Text) (w : Wrapper S) (name : Option Text) (version retval : ℕ)
      (addr after_addr : Option (Option Text)) (after_version : Option ℕ) (s : S)
      → exported Report.pass_thru_get_next_car_daq ≡ true
      → dll Report.pass_thru_get_next_car_daq (some name, some version, addr) w.dll
        ≡ ok (retval, (some none, after_version, after_addr), s)
      → methods dll Report.pass_thru_get_next_car_daq
          (some name, some version, addr)
          (load_dll true exported path w).0
        ≡ fault null_pointer
  unfolding methods wrapped wrapping pass_thru_get_next_car_daq forward load_dll car_daq_puts deref
  enumeration_end_faults exported path w name version retval addr after_addr after_version s e d =
      rw
        (
          assign_functions-Bound exported w.functions Report.pass_thru_get_next_car_daq tt e,
          forward,
        )
        (rw d refl)
