-- ===== src/Cannelloni/Client/Ioctl/Effects.antt =====
-- What PassThruIoctl of j2534_OverIP/j2534cannelloniclient.cpp writes to its caller's memory.
use j2534_oip_wrapper.Prelude.{
  ℕ, ◌≡◌, ◌≢◌, refl, arith, List, [], ◌∷◌, map, Bool-cases, inl, inr, some, ◌==◌, if◌then◌else◌,
}
use j2534_oip_wrapper.Message.{ok, status_noerror}
use j2534_oip_wrapper.Cannelloni.Client.{Client}
use j2534_oip_wrapper.Cannelloni.Client.Ioctl.{
  SConfig, SParam, IoctlMemory, get_config, read_vbatt, read_prog_voltage, read_pin_voltage,
  get_device_info, data_rate_param, data_rate, config_item, write_word, pin_voltage, ioctl_effect,
  pass_thru_ioctl,
}

-- An item of a configuration list after GET_CONFIG.
abbrev pub Configured : ℕ → SConfig → SConfig → Type 0
Configured rate before after =
    (after.parameter ≡ before.parameter)
    × (before.parameter ≡ data_rate_param → after.value ≡ rate)
    × (before.parameter ≢ data_rate_param → after.value ≡ before.value)

-- Two lists of the same length whose items are related one by one.
abbrev pub Each : (SConfig → SConfig → Type 0) → List SConfig → List SConfig → Type 0
Each R [] [] = Unit
Each R (x ∷ xs) (y ∷ ys) = R x y × Each R xs ys
Each R [] (y ∷ ys) = ⊥
Each R (x ∷ xs) [] = ⊥

config_item-Configured : (rate : ℕ) (p : SConfig) → Configured rate p (config_item rate p)
unfolding config_item
config_item-Configured rate p = ground arith

config_items-Each :
    (rate : ℕ) (items : List SConfig) → Each (Configured rate) items (map (config_item rate) items)
config_items-Each rate [] = tt
config_items-Each rate (p ∷ items) = (config_item-Configured rate p, config_items-Each rate items)

-- GET_CONFIG returns STATUS_NOERROR and rewrites the list in place: the parameters stay, the value
-- of every DATA_RATE item is 125000 on channel 20000 and 500000 on any other, and no other value
-- changes.
pub get_config_sets_rate :
    (c : Client) (channel_id : ℕ) (items : List SConfig) (mem : IoctlMemory)
    → mem.input ≡ some items
    → (c' : Client) × (items' : List SConfig) × (pass_thru_ioctl c channel_id get_config mem
        ≡ ok (c', status_noerror, record mem { input = some items' }))
      × Each (Configured (if channel_id == 20000 then 125000 else 500000)) items items'
unfolding pass_thru_ioctl ioctl_effect data_rate
get_config_sets_rate c channel_id items mem e = simp e (_, _, refl, config_items-Each _ items)

writes :
    (mem : IoctlMemory) (word v : ℕ)
    → mem.output_word ≡ some word
    → write_word mem v ≡ ok (record mem { output_word = some v })
unfolding write_word
writes mem word v e = rw (e, write_word) refl

effect_returns :
    (channel_id ioctl_id word : ℕ) (params : List SParam) (mem : IoctlMemory)
    → mem.output_word ≡ some word
    → mem.output_params ≡ some params
    → (mem' : IoctlMemory) × (ioctl_effect channel_id ioctl_id mem ≡ ok mem')
unfolding ioctl_effect
effect_returns channel_id ioctl_id word params mem has_word has_params =
    elim (Bool-cases (ioctl_id == read_vbatt)) [
      | inl e ↦ simp e (_, writes mem word 12800 has_word)
      | inr e1 ↦ elim (Bool-cases (ioctl_id == read_prog_voltage)) [
        | inl e ↦ simp (e1, e) (_, writes mem word 5200 has_word)
        | inr e2 ↦ elim (Bool-cases (ioctl_id == read_pin_voltage)) [
          | inl e ↦ simp (e1, e2, e) (_, writes mem word (pin_voltage mem.input) has_word)
          | inr e3 ↦ elim (Bool-cases (ioctl_id == get_device_info)) [
            | inl e ↦ simp (e1, e2, e3, e, has_params) (_, refl)
            | inr e4 ↦ elim (Bool-cases (ioctl_id == get_config)) [
              | inl e ↦ simp (e1, e2, e3, e4, e) (_, refl)
              | inr e5 ↦ simp (e1, e2, e3, e4, e5) (_, refl)
            ]
          ]
        ]
      ]
    ]

-- Whatever the id, also an unknown one, PassThruIoctl returns STATUS_NOERROR where the pointers
-- behind which it may write are not null.
pub ioctl_always_ok :
    (c : Client) (channel_id ioctl_id word : ℕ) (params : List SParam) (mem : IoctlMemory)
    → mem.output_word ≡ some word
    → mem.output_params ≡ some params
    → (c' : Client) × (mem' : IoctlMemory) × (pass_thru_ioctl c channel_id ioctl_id mem
        ≡ ok (c', status_noerror, mem'))
unfolding pass_thru_ioctl
ioctl_always_ok c channel_id ioctl_id word params mem has_word has_params =
    let (mem', e) = effect_returns channel_id ioctl_id word params mem has_word has_params in
    rw (e, pass_thru_ioctl) (_, mem', refl)
