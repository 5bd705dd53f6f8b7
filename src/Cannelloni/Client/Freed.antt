-- ===== src/Cannelloni/Client/Freed.antt =====
-- Reports that end with the text of a failure (j2534_OverIP/j2534cannelloniclient.cpp): the text is
-- freed before the report is made.
use j2534_oip_wrapper.Prelude.{ℕ, ◌≡◌, refl, arith, List, [], ◌∷◌, ◌++◌, true}
use j2534_oip_wrapper.Report.{Fn, Put, entry, error, failure, reads_freed, is_freed}

pub reads_freed-failure :
    (puts : List Put) (f : Fn) (reason : List ℕ)
    → reads_freed (puts ++ entry error (failure f reason) ∷ []) ≡ true
unfolding reads_freed is_freed
reads_freed-failure [] f reason = refl
reads_freed-failure (p ∷ ps) f reason = ground (arith, reads_freed-failure ps f reason)
