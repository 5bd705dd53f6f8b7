-- ===== src/Cannelloni/Client/Invariant/Reports.antt =====
-- PassThruSelect and PassThruIoctl keep the invariant of J2534CannelloniClient: they change
-- nothing but the reports and the last error.
use j2534_oip_wrapper.Prelude.{
  ◌≡◌, arith, ℕ, Option, none, some, Option-cases, inl, inr, Bool-cases, ◌==◌,
}
use j2534_oip_wrapper.Message.{Result, ok, fault, WhenOk, WhenOk-bind}
use j2534_oip_wrapper.Cannelloni.Client.{Client, report}
use j2534_oip_wrapper.Cannelloni.Client.Valid.{IsValid}
use j2534_oip_wrapper.Cannelloni.Client.Select.{
  ChannelSet, SelectEnv, select_loop, select_fuel, pass_thru_select,
}
use j2534_oip_wrapper.Cannelloni.Client.Ioctl.{IoctlMemory, ioctl_effect, pass_thru_ioctl}

-- The waiting calls leave the channels, the sockets and the index as they are.
abbrev SameParts : Client → Client → Type 0
SameParts c c' =
    (c'.channels ≡ c.channels) × (c'.sockets ≡ c.sockets) × (c'.scan_index ≡ c.scan_index)

SameParts-IsValid : (c c' : Client) → SameParts c c' → IsValid c → IsValid c'
SameParts-IsValid c c' (e1, e2, e3) v = rw (e1, e2, e3) v

select-SameParts :
    (c c' : Client) (env : SelectEnv) (set : Option ChannelSet) (select_type timeout status : ℕ)
    → pass_thru_select c env set select_type timeout ≡ some (c', status)
    → SameParts c c'
unfolding pass_thru_select report
select-SameParts c c' env none select_type timeout status e = (cc, cc, cc)
select-SameParts c c' env (some set) select_type timeout status e =
    elim (Bool-cases (set.channel_count == 0)) [
      | inl none_left ↦ ground (arith, none_left)
      | inr more ↦ elim (Option-cases set.channel_list) [
        | inl null_list ↦ ground (arith, more, null_list)
        | inr (ids, some_list) ↦
            elim (Option-cases
              (select_loop env timeout ids set.channel_threshold (select_fuel timeout) 0)) [
                | inl late ↦ ground (arith, more, some_list, late)
                | inr (ready, seen) ↦ ground (arith, more, some_list, seen)
              ]
      ]
    ]

pub pass_thru_select-IsValid :
    (c c' : Client) (env : SelectEnv) (set : Option ChannelSet) (select_type timeout status : ℕ)
    → pass_thru_select c env set select_type timeout ≡ some (c', status)
    → IsValid c
    → IsValid c'
pass_thru_select-IsValid c c' env set select_type timeout status e =
    SameParts-IsValid c c' (select-SameParts c c' env set select_type timeout status e)

pub pass_thru_ioctl-IsValid :
    (c : Client) (channel_id ioctl_id : ℕ) (mem : IoctlMemory)
    → IsValid c
    → WhenOk
        (λ (r : Client × ℕ × IoctlMemory). IsValid r.0)
        (pass_thru_ioctl c channel_id ioctl_id mem)
unfolding pass_thru_ioctl report
pass_thru_ioctl-IsValid c channel_id ioctl_id mem v =
    WhenOk-bind (λ (m : IoctlMemory). Unit {0}) (λ (r : Client × ℕ × IoctlMemory). IsValid r.0) _ _
      (always (ioctl_effect channel_id ioctl_id mem)) (λ m t. v)
  where
    always : (r : Result IoctlMemory) → WhenOk (λ (m : IoctlMemory). Unit {0}) r
    always (ok a) = tt
    always (fault e) = tt
