-- ===== src/Cannelloni/Client/Valid.antt =====
-- The representation invariant of J2534CannelloniClient: its channel map, the sockets that it
-- holds open, and the index of its enumeration.
use j2534_oip_wrapper.Prelude.{
  ℕ, ◌%◌, ◌^◌, ◌≤◌, ◌<◌, ◌≡◌, ◌≢◌, refl, sym, ap, subst, ◌∙◌, arith, List, [], ◌∷◌, ◌++◌, some, inl,
  inr, false, Bool-cases, ◌==◌, ==→eq, length, length-append, All,
}
use j2534_oip_wrapper.Prelude.Bytes.{IsByte}
use j2534_oip_wrapper.Prelude.Assoc.{
  Fresh, Distinct, remove, remove-Fresh, Distinct-remove, Distinct-append_one, find, assign, erase,
  contains_key, keys, assign_absent, Fresh-absent, keys-erase, keys-assign_found, keys-append_one,
  length-erase, length-assign_found, Entries, Entries-find, Entries-erase, Entries-assign,
}
use j2534_oip_wrapper.Cannelloni.Receive.{Channel, max_packet_size}
use j2534_oip_wrapper.Cannelloni.Client.{Client, virtual_device_count}

-- A channel of a port: its peer has the port's low 16 bits, its sequence number is a byte, and its
-- buffer is an array of 1500 bytes.
pub record ChannelIsValid (port : ℕ) (ctx : Channel) : Type 0 where
  pub target : ctx.target_addr.port ≡ port % 2 ^ 16
  pub seq : ctx.seq_no < 256
  pub buffer_size : length ctx.rx_buffer ≡ max_packet_size
  pub buffer_bytes : All IsByte ctx.rx_buffer

-- The sockets of the channels, in the order of the map.
abbrev pub fds : List (ℕ × Channel) → List ℕ
fds [] = []
fds ((k, ctx) ∷ m) = ctx.sockfd ∷ fds m

-- At most three channels, each port once, each channel valid; the open sockets are those of the
-- channels, each once; the index of the enumeration is at most the number of devices.
pub record PartsAreValid (m : List (ℕ × Channel)) (open_fds : List ℕ) (index : ℕ) : Type 0 where
  pub capacity : length m ≤ virtual_device_count
  pub distinct_ports : Distinct (keys m)
  pub channels_valid : Entries ChannelIsValid m
  pub no_leak : open_fds ≡ fds m
  pub distinct_sockets : Distinct open_fds
  pub index_bound : index ≤ virtual_device_count

abbrev pub IsValid : Client → Type 0
IsValid c = PartsAreValid c.channels c.sockets c.scan_index

fds-append_one :
    (k : ℕ) (ctx : Channel) (m : List (ℕ × Channel))
    → fds (m ++ (k, ctx) ∷ []) ≡ fds m ++ ctx.sockfd ∷ []
fds-append_one k ctx [] = refl
fds-append_one k ctx ((j, d) ∷ m) = ap (◌∷◌ d.sockfd) (fds-append_one k ctx m)

-- A socket that is fresh to the map is not that of a channel in it.
Fresh-fd :
    (x k : ℕ) (ctx : Channel) (m : List (ℕ × Channel))
    → Fresh x (fds m)
    → find k m ≡ some ctx
    → x ≢ ctx.sockfd
unfolding find
Fresh-fd x k ctx [] h e = cc
Fresh-fd x k ctx ((j, d) ∷ m) h e = elim (Bool-cases (j == k)) [
  | inl hit ↦
      let e' : some d ≡ some ctx = rw hit at e in
      let same : d ≡ ctx = cc in λ p. h.0 (p ∙ ap (λ (c : Channel). c.sockfd) (sym same))
  | inr miss ↦ let e' : find k m ≡ some ctx = rw miss at e in Fresh-fd x k ctx m h.1 e'
]

erase_absent : (k : ℕ) (m : List (ℕ × Channel)) → Fresh k (keys m) → fds (erase k m) ≡ fds m
unfolding erase
erase_absent k [] h = refl
erase_absent k ((j, d) ∷ m) h = ground (arith, erase_absent k m h.1)

-- Erasing a channel takes its socket off the list.
fds-erase :
    (k : ℕ) (ctx : Channel) (m : List (ℕ × Channel))
    → Distinct (keys m)
    → Distinct (fds m)
    → find k m ≡ some ctx
    → fds (erase k m) ≡ remove ctx.sockfd (fds m)
unfolding find erase remove
fds-erase k ctx [] dk df e = cc
fds-erase k ctx ((j, d) ∷ m) dk df e = elim (Bool-cases (j == k)) [
  | inl hit ↦
      let e' : some d ≡ some ctx = rw hit at e in
      let same : d ≡ ctx = cc in
      let same_fd : d.sockfd ≡ ctx.sockfd = ap (λ (c : Channel). c.sockfd) same in
      let kf : Fresh k (keys m) = subst (λ t. Fresh t (keys m)) (==→eq j k hit) dk.0 in
      let ff : Fresh ctx.sockfd (fds m) = subst (λ t. Fresh t (fds m)) same_fd df.0 in
      ground (arith, hit, same_fd, erase_absent k m kf, remove-Fresh ctx.sockfd (fds m) ff)
  | inr miss ↦
      let e' : find k m ≡ some ctx = rw miss at e in
      ground (arith, miss, fds-erase k ctx m dk.1 df.1 e', Fresh-fd d.sockfd k ctx m df.0 e')
]

-- Writing a channel back with the same socket.
fds-assign :
    (k : ℕ) (ctx ctx' : Channel) (m : List (ℕ × Channel))
    → find k m ≡ some ctx
    → ctx'.sockfd ≡ ctx.sockfd
    → fds (assign k ctx' m) ≡ fds m
unfolding find assign
fds-assign k ctx ctx' [] e same = cc
fds-assign k ctx ctx' ((j, d) ∷ m) e same = elim (Bool-cases (j == k)) [
  | inl hit ↦
      let e' : some d ≡ some ctx = rw hit at e in
      let same_ctx : d ≡ ctx = cc in
      let same_fd : d.sockfd ≡ ctx.sockfd = ap (λ (c : Channel). c.sockfd) same_ctx in
      rw hit (ap (λ (t : ℕ). t ∷ fds m) (same ∙ sym same_fd))
  | inr miss ↦
      let e' : find k m ≡ some ctx = rw miss at e in
      rw miss (ap (◌∷◌ d.sockfd) (fds-assign k ctx ctx' m e' same))
]

module _ {m : List (ℕ × Channel)} {open_fds : List ℕ} {index : ℕ} where
  -- A new channel on a new socket, where there is room and the port is free.
  pub PartsAreValid-insert :
      (k : ℕ) (ctx : Channel)
      → PartsAreValid m open_fds index
      → length m < virtual_device_count
      → contains_key k m ≡ false
      → Fresh ctx.sockfd open_fds
      → ChannelIsValid k ctx
      → PartsAreValid (assign k ctx m) (open_fds ++ ctx.sockfd ∷ []) index
  PartsAreValid-insert k ctx v room absent fresh cv = record {
    capacity = rw (assign_absent k ctx m absent) (omega (arith, length-append m ((k, ctx) ∷ [])));
    distinct_ports =
        rw (assign_absent k ctx m absent, keys-append_one k ctx m)
          (Distinct-append_one k (keys m) v.distinct_ports (Fresh-absent k m absent));
    channels_valid = Entries-assign ChannelIsValid k ctx m v.channels_valid cv;
    no_leak =
        rw (assign_absent k ctx m absent, fds-append_one k ctx m)
          (ap (λ (t : List ℕ). t ++ ctx.sockfd ∷ []) v.no_leak);
    distinct_sockets = Distinct-append_one ctx.sockfd open_fds v.distinct_sockets fresh;
    index_bound = v.index_bound;
  }

  pub PartsAreValid-erase :
      (k : ℕ) (ctx : Channel)
      → PartsAreValid m open_fds index
      → find k m ≡ some ctx
      → PartsAreValid (erase k m) (remove ctx.sockfd open_fds) index
  PartsAreValid-erase k ctx v e = record {
    capacity = omega (arith, length-erase k m, v.capacity);
    distinct_ports = rw (keys-erase k m) (Distinct-remove k (keys m) v.distinct_ports);
    channels_valid = Entries-erase ChannelIsValid k m v.channels_valid;
    no_leak =
        ap (remove ctx.sockfd) v.no_leak
        ∙ sym (fds-erase k ctx m v.distinct_ports (subst Distinct v.no_leak v.distinct_sockets) e);
    distinct_sockets = Distinct-remove ctx.sockfd open_fds v.distinct_sockets;
    index_bound = v.index_bound;
  }

  pub PartsAreValid-update :
      (k : ℕ) (ctx ctx' : Channel)
      → PartsAreValid m open_fds index
      → find k m ≡ some ctx
      → ctx'.sockfd ≡ ctx.sockfd
      → ChannelIsValid k ctx'
      → PartsAreValid (assign k ctx' m) open_fds index
  PartsAreValid-update k ctx ctx' v e same cv = record {
    capacity = omega (arith, length-assign_found k ctx' ctx m e, v.capacity);
    distinct_ports = rw (keys-assign_found k ctx' ctx m e) v.distinct_ports;
    channels_valid = Entries-assign ChannelIsValid k ctx' m v.channels_valid cv;
    no_leak = v.no_leak ∙ sym (fds-assign k ctx ctx' m e same);
    distinct_sockets = v.distinct_sockets;
    index_bound = v.index_bound;
  }

  pub PartsAreValid-find :
      (k : ℕ) (ctx : Channel)
      → PartsAreValid m open_fds index
      → find k m ≡ some ctx
      → ChannelIsValid k ctx
  PartsAreValid-find k ctx v e = Entries-find ChannelIsValid k ctx m v.channels_valid e
