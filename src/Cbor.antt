-- ===== src/Cbor.antt =====
-- CBOR values: what cn-cbor builds on the side of the library and Qt reads in the application
-- (QCborValue, QCborMap, QCborArray, by their documentation). Negative integers, which the library
-- puts nowhere, are left out; a map keeps its pairs in the order in which they were put.

pub mod Encode
use Prim.Native.String.{String}
use text.Mathlib.Text
use j2534_oip_wrapper.Prelude.{ℕ, zero, suc, List, [], Bool, false, ◌==◌, if◌then◌else◌}

pub data CborKey : Type 0 where
  number : ℕ → CborKey
  name : String → CborKey

mutual
  pub data Cbor : Type 0 where
    undefined : Cbor
    integer : ℕ → Cbor
    text_string : List ℕ → Cbor
    byte_array : List ℕ → Cbor
    boolean : Bool → Cbor
    array : Items → Cbor
    cbor_map : Pairs → Cbor

  pub data Items : Type 0 where
    no_items : Items
    item : Cbor → Items → Items

  pub data Pairs : Type 0 where
    no_pairs : Pairs
    pair : CborKey → Cbor → Pairs → Pairs

unfoldable pub same_key : CborKey → CborKey → Bool
same_key (number a) (number b) = a == b
same_key (name s) (name t) = Text.◌==◌ s t
same_key j k = false

-- QCborMap::value: the first pair with the key, undefined if there is none.
unfoldable pub value_of : CborKey → Pairs → Cbor
unfolding same_key
value_of key no_pairs = undefined
value_of key (pair k v ps) = let rest = value_of key ps in if same_key k key then v else rest

-- `toMap()` and `toArray()`: empty for another value.
unfoldable pub to_map : Cbor → Pairs
to_map (cbor_map ps) = ps
to_map v = no_pairs

unfoldable pub to_array : Cbor → Items
to_array (array items) = items
to_array v = no_items

-- `toInteger(default)`, `toBool(false)`, `toByteArray()` and `toString()`.
unfoldable pub to_integer : ℕ → Cbor → ℕ
to_integer default (integer n) = n
to_integer default v = default

unfoldable pub to_bool : Cbor → Bool
to_bool (boolean b) = b
to_bool v = false

unfoldable pub to_byte_array : Cbor → List ℕ
to_byte_array (byte_array bytes) = bytes
to_byte_array v = []

unfoldable pub to_string : Cbor → List ℕ
to_string (text_string s) = s
to_string v = []
