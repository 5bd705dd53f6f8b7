-- ===== src/Prelude/Assoc.antt =====
-- std::map with a word for a key, as an association list, and lists of distinct numbers.
use Prim.Native.Nat.{ℕ, ◌≤◌}
use mathlib.Core.Path.{◌≡◌, refl, sym, ap, subst, subst₂, ◌∙◌}
use mathlib.Core.Logic.{◌≢◌, inl, inr}
use mathlib.Core.Bool.{Bool, true, false}
use mathlib.Core.List.{List, [], ◌∷◌, ◌++◌}
use mathlib.Core.Option.{Option, none, some}
use native.Mathlib.Omega.{arith}
use j2534_oip_wrapper.Prelude.Tests.{◌==◌, if◌then◌else◌, ==→eq, ==_self, Bool-cases}
use j2534_oip_wrapper.Prelude.Lists.{length, All}

-- `x` is not in the list; no number is in the list twice.
abbrev pub Fresh : ℕ → List ℕ → Type 0
Fresh x xs = All (λ y. x ≢ y) xs

abbrev pub Distinct : List ℕ → Type 0
Distinct [] = Unit {0}
Distinct (x ∷ xs) = Fresh x xs × Distinct xs

unfoldable pub remove : ℕ → List ℕ → List ℕ
remove x [] = []
remove x (y ∷ ys) = let rest = remove x ys in if y == x then rest else y ∷ rest

pub remove-Fresh : (x : ℕ) (ys : List ℕ) → Fresh x ys → remove x ys ≡ ys
unfolding remove
remove-Fresh x [] h = refl
remove-Fresh x (y ∷ ys) h = ground (arith, remove-Fresh x ys h.1)

pub Fresh-remove : (z x : ℕ) (ys : List ℕ) → Fresh z ys → Fresh z (remove x ys)
unfolding remove
Fresh-remove z x [] h = tt
Fresh-remove z x (y ∷ ys) h = ground (arith, Fresh-remove z x ys h.1)

pub Distinct-remove : (x : ℕ) (ys : List ℕ) → Distinct ys → Distinct (remove x ys)
unfolding remove
Distinct-remove x [] h = tt
Distinct-remove x (y ∷ ys) h = ground (arith, Fresh-remove y x ys h.0, Distinct-remove x ys h.1)

pub Fresh-append_one : (z x : ℕ) (ys : List ℕ) → Fresh z ys → z ≢ x → Fresh z (ys ++ x ∷ [])
Fresh-append_one z x [] h n = (n, tt)
Fresh-append_one z x (y ∷ ys) h n = (h.0, Fresh-append_one z x ys h.1 n)

pub Distinct-append_one : (x : ℕ) (ys : List ℕ) → Distinct ys → Fresh x ys → Distinct (ys ++ x ∷ [])
Distinct-append_one x [] h n = (tt, tt)
Distinct-append_one x (y ∷ ys) h n =
    (Fresh-append_one y x ys h.0 (λ e. n.0 (sym e)), Distinct-append_one x ys h.1 n.1)

module _ {ℓ} {V : Type ℓ} where
  unfoldable pub find : ℕ → List (ℕ × V) → Option V
  find k [] = none
  find k ((j, v) ∷ m) = if j == k then some v else find k m

  -- `map[k] = v`.
  unfoldable pub assign : ℕ → V → List (ℕ × V) → List (ℕ × V)
  assign k v [] = (k, v) ∷ []
  assign k v ((j, w) ∷ m) = if j == k then (j, v) ∷ m else (j, w) ∷ assign k v m

  unfoldable pub erase : ℕ → List (ℕ × V) → List (ℕ × V)
  erase k [] = []
  erase k ((j, w) ∷ m) = let rest = erase k m in if j == k then rest else (j, w) ∷ rest

  unfoldable pub contains_key : ℕ → List (ℕ × V) → Bool
  contains_key k [] = false
  contains_key k ((j, w) ∷ m) = if j == k then true else contains_key k m

  abbrev pub keys : List (ℕ × V) → List ℕ
  keys [] = []
  keys ((k, v) ∷ m) = k ∷ keys m

  abbrev pub values : List (ℕ × V) → List V
  values [] = []
  values ((k, v) ∷ m) = v ∷ values m

  pub find-assign :
      (k j : ℕ) (v : V) (m : List (ℕ × V))
      → find j (assign k v m) ≡ (if k == j then some v else find j m)
  unfolding find assign
  find-assign k j v [] = refl
  find-assign k j v ((i, w) ∷ m) = ground (arith, find-assign k j v m)

  pub find-assign_same : (k : ℕ) (v : V) (m : List (ℕ × V)) → find k (assign k v m) ≡ some v
  find-assign_same k v m =
      find-assign k k v m ∙ ap (λ (b : Bool). if b then some v else find k m) (==_self k)

  pub find-erase :
      (k j : ℕ) (m : List (ℕ × V)) → find j (erase k m) ≡ (if k == j then none else find j m)
  unfolding find erase
  find-erase k j [] = ground arith
  find-erase k j ((i, w) ∷ m) = ground (arith, find-erase k j m)

  pub contains_key-assign :
      (k : ℕ) (v : V) (m : List (ℕ × V)) → contains_key k (assign k v m) ≡ true
  unfolding contains_key assign
  contains_key-assign k v [] = ground (arith, ==_self k)
  contains_key-assign k v ((j, w) ∷ m) = ground (arith, contains_key-assign k v m)

  pub find_absent : (k : ℕ) (m : List (ℕ × V)) → contains_key k m ≡ false → find k m ≡ none
  unfolding find contains_key
  find_absent k [] h = refl
  find_absent k ((j, w) ∷ m) h = ground (arith, find_absent k m)

  pub find_present : (k : ℕ) (m : List (ℕ × V)) → contains_key k m ≡ true → find k m ≢ none
  unfolding find contains_key
  find_present k [] h = cc
  find_present k ((j, w) ∷ m) h = ground (arith, find_present k m)

  -- A new key goes to the end.
  pub assign_absent :
      (k : ℕ) (v : V) (m : List (ℕ × V))
      → contains_key k m ≡ false
      → assign k v m ≡ m ++ (k, v) ∷ []
  unfolding assign contains_key
  assign_absent k v [] h = refl
  assign_absent k v ((j, w) ∷ m) h = ground (arith, assign_absent k v m)

  pub Fresh-absent : (k : ℕ) (m : List (ℕ × V)) → contains_key k m ≡ false → Fresh k (keys m)
  unfolding contains_key
  Fresh-absent k [] h = tt
  Fresh-absent k ((j, w) ∷ m) h = ground (arith, Fresh-absent k m)

  pub keys-erase : (k : ℕ) (m : List (ℕ × V)) → keys (erase k m) ≡ remove k (keys m)
  unfolding erase remove
  keys-erase k [] = refl
  keys-erase k ((j, w) ∷ m) = ground (arith, keys-erase k m)

  -- Writing to a key that is there changes no key.
  pub keys-assign_found :
      (k : ℕ) (v w : V) (m : List (ℕ × V)) → find k m ≡ some w → keys (assign k v m) ≡ keys m
  unfolding find assign
  keys-assign_found k v w [] h = cc
  keys-assign_found k v w ((j, u) ∷ m) h = ground (arith, keys-assign_found k v w m)

  pub keys-append_one :
      (k : ℕ) (v : V) (m : List (ℕ × V)) → keys (m ++ (k, v) ∷ []) ≡ keys m ++ k ∷ []
  keys-append_one k v [] = refl
  keys-append_one k v ((j, w) ∷ m) = ap (◌∷◌ j) (keys-append_one k v m)

  pub length-erase : (k : ℕ) (m : List (ℕ × V)) → length (erase k m) ≤ length m
  unfolding erase
  length-erase k [] = omega arith
  length-erase k ((j, w) ∷ m) = ground (arith, length-erase k m)

  pub length-assign_found :
      (k : ℕ) (v w : V) (m : List (ℕ × V)) → find k m ≡ some w → length (assign k v m) ≡ length m
  unfolding find assign
  length-assign_found k v w [] h = cc
  length-assign_found k v w ((j, u) ∷ m) h = ground (arith, length-assign_found k v w m)

-- Every entry of a map has a property.
module _ {ℓ κ} {V : Type ℓ} (P : ℕ → V → Type κ) where
  abbrev pub Entries : List (ℕ × V) → Type κ
  Entries [] = Unit {κ}
  Entries ((k, v) ∷ m) = P k v × Entries m

  pub Entries-find : (k : ℕ) (v : V) (m : List (ℕ × V)) → Entries m → find k m ≡ some v → P k v
  unfolding find
  Entries-find k v [] h e = cc
  Entries-find k v ((j, w) ∷ m) h e = elim (Bool-cases (j == k)) [
    | inl hit ↦
        let e' : some w ≡ some v = rw hit at e in
        let same : w ≡ v = cc in subst₂ P (==→eq j k hit) same h.0
    | inr miss ↦ let e' : find k m ≡ some v = rw miss at e in Entries-find k v m h.1 e'
  ]

  pub Entries-erase : (k : ℕ) (m : List (ℕ × V)) → Entries m → Entries (erase k m)
  unfolding erase
  Entries-erase k [] h = tt
  Entries-erase k ((j, w) ∷ m) h = elim (Bool-cases (j == k)) [
    | inl hit ↦ rw hit (Entries-erase k m h.1)
    | inr miss ↦ rw miss (h.0, Entries-erase k m h.1)
  ]

  pub Entries-assign :
      (k : ℕ) (v : V) (m : List (ℕ × V)) → Entries m → P k v → Entries (assign k v m)
  unfolding assign
  Entries-assign k v [] h p = (p, tt)
  Entries-assign k v ((j, w) ∷ m) h p = elim (Bool-cases (j == k)) [
    | inl hit ↦ rw hit (subst (λ i. P i v) (sym (==→eq j k hit)) p, h.1)
    | inr miss ↦ rw miss (h.0, Entries-assign k v m h.1 p)
  ]
