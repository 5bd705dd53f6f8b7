-- ===== src/Cannelloni/Client/Ioctl.antt =====
-- PassThruIoctl and PassThruReadVersion of j2534_OverIP/j2534cannelloniclient.cpp.
pub mod Effects
use j2534_oip_wrapper.Prelude.{
  ℕ, ◌-◌, List, [], ◌∷◌, ◌++◌, Bool, Option, none, some, map, codes, length, replicate, ◌==◌,
  if◌then◌else◌,
}
use j2534_oip_wrapper.Message.{Result, ok, fault, null_pointer, ◌>>=◌, status_noerror}
use j2534_oip_wrapper.Report.{
  entry, int, text, freed_text, fn_key, pass_thru_ioctl as ioctl_fn,
  pass_thru_read_version as version_fn, func_name, param1, param2, param3, param4, rx_tx,
  retval_long,
}
use j2534_oip_wrapper.Cannelloni.Client.{Client, report}

-- SCONFIG and SPARAM.
pub record SConfig : Type 0 where
  pub parameter : ℕ
  pub value : ℕ

pub record SParam : Type 0 where
  pub parameter : ℕ
  pub value : ℕ
  pub supported : ℕ

-- The memory behind `pInput` and `pOutput`, as the branch of the call reads it: the list of
-- configuration items behind `pInput`, the word or the parameter list behind `pOutput`. A null
-- pointer is `none`.
pub record IoctlMemory : Type 0 where
  pub input : Option (List SConfig)
  pub output_word : Option ℕ
  pub output_params : Option (List SParam)

-- enum IoctlId.
abbrev pub get_config : ℕ
get_config = 0x01

abbrev pub read_vbatt : ℕ
read_vbatt = 0x03

abbrev pub read_prog_voltage : ℕ
read_prog_voltage = 0x0e

abbrev pub get_device_info : ℕ
get_device_info = 0x800c

abbrev pub read_pin_voltage : ℕ
read_pin_voltage = 0x800e

-- SERIAL_NUMBER, CAN_SUPPORTED, SHORT_TO_GND_J1962, PGM_VOLTAGE_J1962 and DATA_RATE.
abbrev pub serial_number : ℕ
serial_number = 0x01

abbrev pub can_supported : ℕ
can_supported = 0x06

abbrev pub short_to_gnd_j1962 : ℕ
short_to_gnd_j1962 = 0x17

abbrev pub pgm_voltage_j1962 : ℕ
pgm_voltage_j1962 = 0x18

abbrev pub data_rate_param : ℕ
data_rate_param = 0x01

unfoldable pub data_rate : ℕ → ℕ
data_rate channel_id = if channel_id == 20000 then 125000 else 500000

-- The `switch` of GET_DEVICE_INFO on one parameter.
unfoldable pub device_info : SParam → SParam
device_info p =
    if p.parameter == serial_number
    then record p { supported = 1; value = 987654321 }
    else if p.parameter == can_supported
    then record p { supported = 1 }
    else if p.parameter == short_to_gnd_j1962
    then if p.value == 0 then record p { supported = 1 } else p
    else if p.parameter == pgm_voltage_j1962
    then record p { supported = 1 }
    else p

-- The `switch` of GET_CONFIG on one item; the other known parameters are only printed.
unfoldable pub config_item : ℕ → SConfig → SConfig
config_item rate p = if p.parameter == data_rate_param then record p { value = rate } else p

write_word : IoctlMemory → ℕ → Result IoctlMemory
write_word mem v = elim mem.output_word [
  | none ↦ fault null_pointer
  | some old ↦ ok (record mem { output_word = some v })
]

pin_voltage : Option (List SConfig) → ℕ
pin_voltage none = 0
pin_voltage (some input) = 5000

config_items : ℕ → Option (List SConfig) → Option (List SConfig)
config_items rate none = none
config_items rate (some items) = some (map (config_item rate) items)

-- The chain of tests on IoctlID. SET_CONFIG prints its items, like an unknown id it changes nothing.
unfoldable pub ioctl_effect : ℕ → ℕ → IoctlMemory → Result IoctlMemory
unfolding write_word pin_voltage config_items
ioctl_effect channel_id ioctl_id mem =
    if ioctl_id == read_vbatt
    then write_word mem 12800
    else if ioctl_id == read_prog_voltage
    then write_word mem 5200
    else if ioctl_id == read_pin_voltage
    then write_word mem (pin_voltage mem.input)
    else if ioctl_id == get_device_info
    then elim mem.output_params [
      | none ↦ fault null_pointer
      | some params ↦ ok (record mem { output_params = some (map device_info params) })
    ]
    else if ioctl_id == get_config
    then ok (record mem { input = config_items (data_rate channel_id) mem.input })
    else ok mem

unfoldable pub pass_thru_ioctl : Client → ℕ → ℕ → IoctlMemory → Result (Client × ℕ × IoctlMemory)
pass_thru_ioctl c channel_id ioctl_id mem = ioctl_effect channel_id ioctl_id mem >>= λ mem'. ok (
  report c ioctl_fn (
      entry func_name (fn_key ioctl_fn)
      ∷ entry param1 (int channel_id)
      ∷ entry param2 (int ioctl_id)
      ∷ entry param3 (int 0)
      ∷ entry param4 (int 0)
      ∷ entry retval_long (int status_noerror)
      ∷ []),
  status_noerror,
  mem',
)

-- An array of 80 characters that starts with a text.
unfoldable pub version_array : List ℕ → List ℕ
version_array str = str ++ replicate (80 - length str) 0

-- The texts are those that the three arguments held before, in strings that are gone when the report
-- is made; the printf before it takes four values and is given three. The last results are
-- written to pFirmwareVersion, pDllVersion and pApiVersion.
unfoldable pub pass_thru_read_version :
    Client → ℕ → List ℕ → List ℕ → List ℕ → Client × ℕ × List ℕ × List ℕ × List ℕ
pass_thru_read_version c device_id firmware dll api = (
  report c version_fn (
      entry func_name (fn_key version_fn)
      ∷ entry param1 (int device_id)
      ∷ entry param2 (freed_text firmware)
      ∷ entry param3 (freed_text dll)
      ∷ entry param4 (freed_text api)
      ∷ entry rx_tx (int 0)
      ∷ entry retval_long (int status_noerror)
      ∷ []),
  status_noerror,
  version_array (codes "04.04"),
  version_array (codes "1.0.001 Feb 28 2023 12:46:00"),
  version_array (codes "04.04"),
)
