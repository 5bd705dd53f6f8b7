-- ===== src/Cannelloni/Client/Threads.antt =====
-- The receive threads of J2534CannelloniClient beside its functions: one round of the thread of a
-- channel (startReceiveThread of j2534_OverIP/j2534cannelloniclient.cpp), which writes its channel
-- in the map.
use j2534_oip_wrapper.Prelude.{
  ℕ, Bool, ◌*◌, ◌-◌, ◌≡◌, ◌≤◌, refl, List, ◌++◌, none, some, Option-cases, inl, inr, Bool-cases,
  length, All, ltb, ◌==◌, is_empty, true, false, arith,
}
use j2534_oip_wrapper.Prelude.Bytes.{IsByte}
use j2534_oip_wrapper.Prelude.Assoc.{find, assign}
use j2534_oip_wrapper.Message.{PassThruMsg, Result, ok, fault, ◌>>=◌, WhenOk, WhenOk-bind}
use j2534_oip_wrapper.Cannelloni.Packet.{header_size, frame_size, read_header, read_frames}
use j2534_oip_wrapper.Cannelloni.Receive.{Channel, receive, poll, max_packet_size, fill_buffer}
use j2534_oip_wrapper.Cannelloni.Receive.Datagrams.{length-fill_buffer, fill_buffer-IsByte}
use j2534_oip_wrapper.Cannelloni.Client.{Client}
use j2534_oip_wrapper.Cannelloni.Client.Valid.{
  ChannelIsValid, IsValid, PartsAreValid-update, PartsAreValid-find,
}

-- One round of the thread of the channel of a port.
unfoldable pub thread_round : Client → ℕ → List ℕ → Result Client
thread_round c port received = elim (find port c.channels) [
  | none ↦ ok c
  | some ctx ↦
      (poll c.version ctx received >>= λ ctx'.
      ok (record c { channels = assign port ctx' c.channels }))
]

-- What `recv` can return for a buffer of 1500 bytes.
pub record Datagram (received : List ℕ) : Type 0 where
  pub at_most : length received ≤ max_packet_size
  pub all_bytes : All IsByte received

-- What a round keeps of a channel.
record RoundKeeps (port : ℕ) (ctx ctx' : Channel) : Type 0 where
  valid : ChannelIsValid port ctx'
  same_socket : ctx'.sockfd ≡ ctx.sockfd

-- A channel with another queue, another flag, and a buffer that is valid.
keeps :
    (port : ℕ) (ctx : Channel) (running : Bool) (queue : List PassThruMsg) (received : List ℕ)
    → ChannelIsValid port ctx
    → Datagram received
    → RoundKeeps port ctx (record ctx {
      rx_buffer = fill_buffer received ctx.rx_buffer;
      running = running;
      msg_queue = queue;
    })
keeps port ctx running queue received v d = record {
  valid = record {
    target = v.target;
    seq = v.seq;
    buffer_size =
        omega (arith, length-fill_buffer received ctx.rx_buffer, v.buffer_size, d.at_most);
    buffer_bytes = fill_buffer-IsByte received ctx.rx_buffer d.all_bytes v.buffer_bytes;
  };
  same_socket = refl;
}

keeps_all :
    (port : ℕ) (ctx : Channel) (running stop : Bool)
    → ChannelIsValid port ctx
    → RoundKeeps port ctx (record ctx { running = running; stop_requested = stop })
keeps_all port ctx running stop v = record {
  valid = record {
    target = v.target;
    seq = v.seq;
    buffer_size = v.buffer_size;
    buffer_bytes = v.buffer_bytes;
  };
  same_socket = refl;
}

receive-RoundKeeps :
    (version port : ℕ) (ctx : Channel) (received : List ℕ)
    → ChannelIsValid port ctx
    → Datagram received
    → WhenOk (RoundKeeps port ctx) (receive version ctx received)
unfolding receive
receive-RoundKeeps version port ctx received v d = elim (Bool-cases (is_empty received)) [
  | inl nothing ↦ rw (nothing, receive) (keeps_all port ctx ctx.running ctx.stop_requested v)
  | inr something ↦ elim (Bool-cases (ltb (length received) header_size)) [
    | inl short ↦ rw (something, short, receive) (keeps port ctx false ctx.msg_queue received v d)
    | inr long ↦
        elim (Bool-cases ((read_header (fill_buffer received ctx.rx_buffer)).version == version)) [
          | inr other ↦
              rw (something, long, other, receive) (keeps port ctx false ctx.msg_queue received v d)
          | inl same ↦
              elim (Bool-cases (
                ltb (length received - header_size)
                  ((read_header (fill_buffer received ctx.rx_buffer)).count * frame_size))) [
                    | inl cut ↦
                        rw (something, long, same, cut, receive)
                          (keeps port ctx false ctx.msg_queue received v d)
                    | inr whole ↦
                        rw (something, long, same, whole, receive)
                          (WhenOk-bind (λ (msgs : List PassThruMsg). Unit {0}) (RoundKeeps port ctx)
                            _ _
                            (always (
                              read_frames (fill_buffer received ctx.rx_buffer)
                                (read_header (fill_buffer received ctx.rx_buffer)).count
                                header_size))
                            (λ msgs t.
                              keeps port ctx ctx.running (ctx.msg_queue ++ msgs) received v d))
                  ]
        ]
  ]
]
  where
    always : (r : Result (List PassThruMsg)) → WhenOk (λ (msgs : List PassThruMsg). Unit {0}) r
    always (ok a) = tt
    always (fault e) = tt

poll-RoundKeeps :
    (version port : ℕ) (ctx : Channel) (received : List ℕ)
    → ChannelIsValid port ctx
    → Datagram received
    → WhenOk (RoundKeeps port ctx) (poll version ctx received)
unfolding poll
poll-RoundKeeps version port ctx received v d = elim (Bool-cases ctx.running) [
  | inr ended ↦ simp (ended, poll) (keeps_all port ctx ctx.running ctx.stop_requested v)
  | inl runs ↦ elim (Bool-cases ctx.stop_requested) [
    | inl stop ↦ simp (runs, stop, poll) (keeps_all port ctx false true v)
    | inr goes ↦ simp (runs, goes, poll) (receive-RoundKeeps version port ctx received v d)
  ]
]

-- A round of a receive thread that ends keeps the invariant, whatever the datagram holds.
pub thread_round-IsValid :
    (c : Client) (port : ℕ) (received : List ℕ)
    → IsValid c
    → Datagram received
    → WhenOk IsValid (thread_round c port received)
unfolding thread_round
thread_round-IsValid c port received v d = elim (Option-cases (find port c.channels)) [
  | inl absent ↦ rw (absent, thread_round) v
  | inr (ctx, found) ↦
      rw (found, thread_round)
        (WhenOk-bind (RoundKeeps port ctx) IsValid _ _
          (poll-RoundKeeps c.version port ctx received (PartsAreValid-find port ctx v found) d)
          (λ ctx' k. PartsAreValid-update port ctx ctx' v found k.same_socket k.valid))
]
