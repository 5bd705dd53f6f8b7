-- ===== src/Monitor/Roles.antt =====
-- What the lists of the monitoring application show in a cell: `data` of ExJ2534ReadMsgsList,
-- ExJ2534Wrapper, ExJ2534Emulator, ExJ2534Cannelloni and ExJ2534WriteMsgsList
-- (j2534_OverIP_App/exj2534*.cpp). A negative row, which has no cell, is left out.
use j2534_oip_wrapper.Prelude.{
  ℕ, zero, suc, ◌≡◌, ◌<◌, refl, ap, ◌∙◌, arith, List, [], ◌∷◌, ◌++◌, Bool, false, ◌⊎◌, inl, inr,
  Bool-cases, ltb, ltb→lt, ltb→le, leb→le, leb→lt, none, some, length, get_or, take, leb, codes,
  le→leb, if◌then◌else◌,
}
use j2534_oip_wrapper.Message.{PassThruMsg, data_capacity, Result, ok, fault, ◌>>=◌, out_of_bounds}
use j2534_oip_wrapper.Monitor.{at_row, shown_row}
use j2534_oip_wrapper.Monitor.Views.{Qt, Element}

-- The roles of all lists together.
pub data Role : Type 0 where
  id timestamp message has_error text : Role
  protocol_id rx_status tx_flags data_size extra_data_index bytes : Role

-- QVariant.
pub data Variant : Type 0 where
  invalid : Variant
  number : ℕ → Variant
  string : List ℕ → Variant
  flag : Bool → Variant

-- The loop over the bytes of a message.
unfoldable pub hex_bytes : Qt → List ℕ → List ℕ
hex_bytes qt [] = []
hex_bytes qt (b ∷ bs) = codes " " ++ qt.hex_text b ++ hex_bytes qt bs

unfoldable pub data_cell : Qt → PassThruMsg → Result Variant
unfolding hex_bytes
data_cell qt m =
    if leb m.data_size data_capacity
    then ok (string (hex_bytes qt (take m.data_size m.bytes)))
    else fault out_of_bounds

unfoldable pub read_cell : Qt → Role → PassThruMsg → Result Variant
unfolding data_cell
read_cell qt id m = ok (string (qt.hex_text (get_or m.bytes 0 0)))
read_cell qt protocol_id m = ok (string (qt.hex_text m.protocol_id))
read_cell qt rx_status m = ok (string (qt.hex_text m.rx_status))
read_cell qt tx_flags m = ok (string (qt.hex_text m.tx_flags))
read_cell qt timestamp m = ok (string (qt.time_text "[hh:mm:ss.zzz]" m.timestamp))
read_cell qt data_size m = ok (number m.data_size)
read_cell qt extra_data_index m = ok (number m.extra_data_index)
read_cell qt bytes m = data_cell qt m
read_cell qt has_error m = ok (flag false)
read_cell qt role m = ok invalid

unfoldable pub wrapper_cell : Qt → Role → Element → Result Variant
wrapper_cell qt id e = ok (number e.msg.id)
wrapper_cell qt timestamp e = ok (string (qt.time_text "[hh:mm:ss.zzz]" e.timestamp))
wrapper_cell qt message e = ok (string e.msg.message)
wrapper_cell qt has_error e = ok (flag e.has_error)
wrapper_cell qt role e = ok invalid

unfoldable pub emulator_cell : Role → Element → Result Variant
emulator_cell id e = ok (number e.msg.id)
emulator_cell timestamp e = ok (number e.timestamp)
emulator_cell message e = ok (string e.msg.message)
emulator_cell role e = ok invalid

unfoldable pub cannelloni_cell : Qt → Role → Element → Result Variant
cannelloni_cell qt id e = ok (number e.msg.id)
cannelloni_cell qt timestamp e = ok (string (qt.time_text "hh:mm:ss.zzz" e.timestamp))
cannelloni_cell qt message e = ok (string e.msg.message)
cannelloni_cell qt text e = ok (string e.text)
cannelloni_cell qt role e = ok invalid

-- The test of the row, and the cell.
unfoldable pub cell_at : {A : Type 0} → (A → Result Variant) → List A → ℕ → Result Variant
unfolding shown_row
cell_at cell rows row =
    shown_row rows row >>= λ found. elim found [ none ↦ ok invalid | some a ↦ cell a ]

-- The roles of the list of sent messages have no cells.
unfoldable pub write_cell : List Element → ℕ → Role → Result Variant
write_cell rows row role = ok invalid

module _ {A : Type 0} where
  at_row-end : (rows : List A) → at_row rows (length rows) ≡ fault out_of_bounds
  unfolding at_row
  at_row-end [] = refl
  at_row-end (m ∷ rows) = at_row-end rows

  -- The element behind `row` others.
  abbrev pub Stands : List A → ℕ → A → Type 0
  Stands rows row a = (front back : List A) × (rows ≡ front ++ a ∷ back) × (length front ≡ row)

  at_row-within :
      (rows : List A) (row : ℕ)
      → row < length rows
      → (a : A) × (at_row rows row ≡ ok a) × Stands rows row a
  unfolding at_row
  at_row-within [] row h = absurd (omega arith)
  at_row-within (m ∷ rows) zero h = (m, refl, ([], rows, refl, refl))
  at_row-within (m ∷ rows) (suc row) h =
      let (a, e, (front, back, parts, n)) = at_row-within rows row (omega arith) in
      (a, e, (m ∷ front, back, ap (◌∷◌ m) parts, ap suc n))

  -- A list asks its cell for the element behind `row` others, if there is one; the row just behind the last one is read
  -- outside the list; and further rows are empty.
  pub cell_at-rows :
      (cell : A → Result Variant) (rows : List A) (row : ℕ)
      → ((a : A) × (cell_at cell rows row ≡ cell a) × Stands rows row a)
        ⊎ ((cell_at cell rows row ≡ fault out_of_bounds) × (row ≡ length rows))
        ⊎ ((cell_at cell rows row ≡ ok invalid) × (length rows < row))
  unfolding cell_at shown_row
  cell_at-rows cell rows row = elim (Bool-cases (ltb row (length rows))) [
    | inl within ↦
        let h : row < length rows = ltb→lt row (length rows) within in
        let (a, e, stands) = at_row-within rows row h in
        inl
          (a, rw (le→leb row (length rows) (omega (arith, h)), e, cell_at, shown_row) refl, stands)
    | inr behind ↦ elim (Bool-cases (leb row (length rows))) [
      | inl last ↦
          let e : row ≡ length rows =
            omega (arith, leb→le row (length rows) last, ltb→le row (length rows) behind) in
          inr (inl (rw (last, ap (at_row rows) e ∙ at_row-end rows, cell_at, shown_row) refl, e))
      | inr past ↦ inr (inr (rw (past, cell_at, shown_row) refl, leb→lt row (length rows) past))
    ]
  ]
