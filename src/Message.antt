-- ===== src/Message.antt =====
-- The J2534 vocabulary that the components share: j2534_OverIP/PassThruStruct.h (the message
-- struct) and j2534_OverIP/j2534_defs.h (status codes, protocols, flags).
use j2534_oip_wrapper.Prelude.{ℕ, ◌-◌, List, ◌++◌, length, replicate}

-- `unsigned long` is a 32-bit word on the target. `bytes` is the array `Data` of 4128
-- bytes.
pub record PassThruMsg : Type 0 where
  pub protocol_id : ℕ
  pub rx_status : ℕ
  pub tx_flags : ℕ
  pub timestamp : ℕ
  pub data_size : ℕ
  pub extra_data_index : ℕ
  pub bytes : List ℕ

abbrev pub data_capacity : ℕ
data_capacity = 4128

-- A zeroed array whose first bytes are written.
unfoldable pub data_array : List ℕ → List ℕ
data_array bytes = bytes ++ replicate (data_capacity - length bytes) 0

-- enum ProtocolId and enum TxFlags.
abbrev pub can : ℕ
can = 0x05

abbrev pub can_ps : ℕ
can_ps = 0x8004

abbrev pub can_29bit_id : ℕ
can_29bit_id = 0x100

-- enum J2534Err.
abbrev pub status_noerror : ℕ
status_noerror = 0x00

abbrev pub err_not_supported : ℕ
err_not_supported = 0x01

abbrev pub err_invalid_channel_id : ℕ
err_invalid_channel_id = 0x02

abbrev pub err_null_parameter : ℕ
err_null_parameter = 0x04

abbrev pub err_failed : ℕ
err_failed = 0x07

abbrev pub err_device_not_connected : ℕ
err_device_not_connected = 0x08

abbrev pub err_timeout : ℕ
err_timeout = 0x09

abbrev pub err_device_in_use : ℕ
err_device_in_use = 0x0e

abbrev pub err_buffer_empty : ℕ
err_buffer_empty = 0x10

abbrev pub err_buffer_overflow : ℕ
err_buffer_overflow = 0x12

abbrev pub err_no_more_devices : ℕ
err_no_more_devices = 0x15

abbrev pub err_invalid_device_id : ℕ
err_invalid_device_id = 0x1a

-- What undefined behaviour a run of the code can reach, or that a wait does not end.
pub data Fault : Type 0 where
  null_pointer out_of_bounds use_after_free uninitialised endless invalid_free : Fault

-- A run that ends, or that reaches undefined behaviour.
pub data Result {ℓ} (A : Type ℓ) : Type ℓ where
  ok : A → Result A
  fault : Fault → Result A

infixl 5 ◌>>=◌
abbrev pub ◌>>=◌ {ℓ κ} : {A : Type ℓ} {B : Type κ} → Result A → (A → Result B) → Result B
ok a >>= f = f a
fault e >>= f = fault e

-- What holds of the value of a run that ends.
abbrev pub WhenOk {ℓ κ} : {A : Type ℓ} → (A → Type κ) → Result A → Type κ
WhenOk P (ok a) = P a
WhenOk P (fault e) = Unit

pub WhenOk-bind {ℓ κ ℓ' κ'} :
    {A : Type ℓ} {B : Type ℓ'} (P : A → Type κ) (Q : B → Type κ') (r : Result A) (f : A → Result B)
    → WhenOk P r
    → ((a : A) → P a → WhenOk Q (f a))
    → WhenOk Q (r >>= f)
WhenOk-bind P Q (ok a) f h k = k a h
WhenOk-bind P Q (fault e) f h k = tt
