-- ===== src/Protocol/Codec/Stream/Split.antt =====
-- How the bytes of a connection are cut into deliveries does not matter.
use Prim.Native.Nat.add
use mathlib.Core.List.{append_assoc}
use xychat_project.Prelude.{
  ℕ, zero, suc, ◌+◌, ◌-◌, ◌≤◌, ◌<◌, ◌≡◌, ◌≢◌, ◌⊎◌, refl, sym, ◌∙◌, List, [], ◌∷◌, ◌++◌, length, All,
  inl, inr, length-append, length-drop, drop, take-append, drop-append, arith, none, some, Option,
}
use xychat_project.Protocol.Packet.{Packet, IsSendable, header_size}
use xychat_project.Protocol.Codec.{
  read_uint, read_header, decode_with, next_packet, PacketCodec, encode, Decoded, DecodeStatus,
  packet_ready, need_more_data, invalid_data, no_error, append_data,
}
use xychat_project.Protocol.Codec.Stream.RoundTrip.{next_packet-encode}
use xychat_project.Protocol.Codec.Stream.{
  Received, read_loop, on_ready_read, default_packet, add_packet,
}

read_uint-append :
    (k : ℕ) (xs ys : List ℕ)
    → k ≤ length xs
    → read_uint k (xs ++ ys) ≡ ((read_uint k xs).0, (read_uint k xs).1 ++ ys)
unfolding read_uint
read_uint-append k xs ys h = rw (take-append k xs ys h, drop-append k xs ys h)

length-read_uint : (k : ℕ) (xs : List ℕ) → length (read_uint k xs).1 ≡ length xs - k
unfolding read_uint
length-read_uint k xs = length-drop k xs

read_header-append :
    (xs ys : List ℕ) → header_size ≤ length xs → read_header (xs ++ ys) ≡ read_header xs
unfolding read_header
read_header-append xs ys h =
    let r₁ = (read_uint 4 xs).1 in
    let r₂ = (read_uint 2 r₁).1 in
    let r₃ = (read_uint 2 r₂).1 in
    let r₄ = (read_uint 8 r₃).1 in
    rw (
      read_uint-append 4 xs ys (omega arith),
      read_uint-append 2 r₁ ys (omega (arith, length-read_uint 4 xs)),
      read_uint-append 2 r₂ ys (omega (arith, length-read_uint 4 xs, length-read_uint 2 r₁)),
      read_uint-append 8 r₃ ys
          (omega (arith, length-read_uint 4 xs, length-read_uint 2 r₁, length-read_uint 2 r₂)),
      read_uint-append 4 r₄ ys (
          omega (
            arith,
            length-read_uint 4 xs,
            length-read_uint 2 r₁,
            length-read_uint 2 r₂,
            length-read_uint 8 r₃,
          )),
    )

abbrev append_buffer : Decoded → List ℕ → Decoded
append_buffer d more = record d { codec = append_data d.codec more }

-- A packet that is ready stays so, whatever is delivered behind it.
next_packet-append :
    (c : PacketCodec) (p : Packet) (more : List ℕ)
    → (next_packet c p).status ≡ packet_ready
    → next_packet (append_data c more) p ≡ append_buffer (next_packet c p) more
unfolding next_packet decode_with append_data
next_packet-append c p more h =
    let n = header_size + (read_header c.buffer).payload_length in
    let l = (read_header c.buffer).payload_length in
    ground (
      arith,
      read_header-append c.buffer more,
      length-append c.buffer more,
      drop-append n c.buffer more,
      drop-append header_size c.buffer more,
      take-append l (drop header_size c.buffer) more,
      length-drop header_size c.buffer,
    )

-- A ready packet takes at least a header off the buffer.
next_packet-shrinks :
    (c : PacketCodec) (p : Packet)
    → (next_packet c p).status ≡ packet_ready
    → length (next_packet c p).codec.buffer + header_size ≤ length c.buffer
unfolding next_packet decode_with
next_packet-shrinks c p h =
    ground (arith, length-drop (header_size + (read_header c.buffer).payload_length) c.buffer)

need_more_keeps :
    (c : PacketCodec) (p : Packet)
    → (next_packet c p).status ≡ need_more_data
    → ((next_packet c p).codec ≡ c) × ((next_packet c p).error ≡ no_error)
unfolding next_packet decode_with
need_more_keeps c p h = ground arith

invalid_fails :
    (c : PacketCodec) (p : Packet)
    → (next_packet c p).status ≡ invalid_data
    → (next_packet c p).error ≢ no_error
unfolding next_packet decode_with
invalid_fails c p h = ground arith

DecodeStatus-cases :
    (s : DecodeStatus) → (s ≡ need_more_data) ⊎ ((s ≡ packet_ready) ⊎ (s ≡ invalid_data))
DecodeStatus-cases need_more_data = inl refl
DecodeStatus-cases packet_ready = inr (inl refl)
DecodeStatus-cases invalid_data = inr (inr refl)

read_loop_ready :
    (f : ℕ) (c : PacketCodec)
    → (next_packet c default_packet).status ≡ packet_ready
    → read_loop (suc f) c
      ≡ add_packet
          (next_packet c default_packet).packet
          (read_loop f (next_packet c default_packet).codec)
unfolding read_loop
read_loop_ready f c e = rw (e, read_loop)

read_loop_more :
    (f : ℕ) (c : PacketCodec)
    → (next_packet c default_packet).status ≡ need_more_data
    → read_loop (suc f) c ≡ some (record { packets = []; codec = c; error = no_error })
unfolding read_loop
read_loop_more f c e = ground (arith, need_more_keeps c default_packet e)

read_loop_invalid :
    (f : ℕ) (c : PacketCodec)
    → (next_packet c default_packet).status ≡ invalid_data
    → read_loop (suc f) c
      ≡ some (record {
        packets = [];
        codec = (next_packet c default_packet).codec;
        error = (next_packet c default_packet).error;
      })
unfolding read_loop
read_loop_invalid f c e = rw (e, read_loop)

add_packet-eq_some :
    (p : Packet) (o : Option Received) {r : Received}
    → add_packet p o ≡ some r
    → (s : Received) × (o ≡ some s) × (r ≡ record s { packets = p ∷ s.packets })
add_packet-eq_some p none e = cc
add_packet-eq_some p (some s) e = (s, refl, ground arith)

-- The loop ends on every buffer, with fuel above the buffer's length.
read_loop_total :
    (f : ℕ) (c : PacketCodec) → length c.buffer < f → (r : Received) × (read_loop f c ≡ some r)
read_loop_total zero c h = absurd (omega arith)
read_loop_total (suc f) c h = elim (DecodeStatus-cases (next_packet c default_packet).status) [
  | inl e ↦ (record { packets = []; codec = c; error = no_error }, read_loop_more f c e)
  | inr (inl e) ↦
      let (r, q) =
        read_loop_total f (next_packet c default_packet).codec
          (omega (arith, next_packet-shrinks c default_packet e)) in
      (
        record r { packets = (next_packet c default_packet).packet ∷ r.packets },
        rw (read_loop_ready f c e, q),
      )
  | inr (inr e) ↦ (_, read_loop_invalid f c e)
]

-- More fuel changes nothing.
read_loop_mono :
    (f g : ℕ) (c : PacketCodec) (r : Received)
    → f ≤ g
    → read_loop f c ≡ some r
    → read_loop g c ≡ some r
read_loop_mono zero g c r h e = unfold read_loop in cc
read_loop_mono (suc f) zero c r h e = absurd (omega arith)
read_loop_mono (suc f) (suc g) c r h e =
    elim (DecodeStatus-cases (next_packet c default_packet).status) [
      | inl s ↦ cc (read_loop_more f c s, read_loop_more g c s)
      | inr (inl s) ↦
          let (t, q, v) =
            add_packet-eq_some _ (read_loop f (next_packet c default_packet).codec)
              (sym (read_loop_ready f c s) ∙ e) in
          rw (read_loop_ready g c s, read_loop_mono f g _ t (omega arith) q, v)
      | inr (inr s) ↦ cc (read_loop_invalid f c s, read_loop_invalid g c s)
    ]

-- Two deliveries one after the other: the loop over both at once gives the same packets.
read_loop-append :
    (f g : ℕ) (c : PacketCodec) (more : List ℕ) (r s : Received)
    → read_loop f c ≡ some r
    → r.error ≡ no_error
    → read_loop g (append_data r.codec more) ≡ some s
    → read_loop (f + g) (append_data c more) ≡ some (record s { packets = r.packets ++ s.packets })
read_loop-append zero g c more r s e n k = unfold read_loop in cc
read_loop-append (suc f) g c more r s e n k =
    elim (DecodeStatus-cases (next_packet c default_packet).status) [
      | inl q ↦
          let same : some r ≡ some (record { packets = []; codec = c; error = no_error }) =
            sym e ∙ read_loop_more f c q in
          ground (arith, same, read_loop_mono g (suc f + g) (append_data c more) s)
      | inr (inl q) ↦
          let (t, u, v) =
            add_packet-eq_some _ (read_loop f (next_packet c default_packet).codec)
              (sym (read_loop_ready f c q) ∙ e) in
          let d = next_packet c default_packet in
          let later = read_loop-append f g d.codec more t s u (ground arith) (ground arith) in
          let same = next_packet-append c default_packet more q in
          rw (add.suc f g)
            (ground (arith, later, same, v, read_loop_ready (f + g) (append_data c more)))
      | inr (inr q) ↦
          absurd (invalid_fails c default_packet q (ground (arith, e, read_loop_invalid f c q)))
    ]

-- Fuel for a buffer.
abbrev rounds : PacketCodec → ℕ
rounds c = suc (length c.buffer)

append_data_twice :
    (c : PacketCodec) (xs ys : List ℕ)
    → append_data (append_data c xs) ys ≡ append_data c (xs ++ ys)
unfolding append_data
append_data_twice c xs ys = rw append_assoc

read_loop_same :
    (f g : ℕ) (c : PacketCodec) (r s : Received)
    → read_loop f c ≡ some r
    → length c.buffer < g
    → read_loop g c ≡ some s
    → s ≡ r
read_loop_same f g c r s e h k =
    let up = read_loop_mono f (f + g) c r (omega arith) e in
    let up' = read_loop_mono g (f + g) c s (omega arith) k in cc

-- `onReadyRead` always comes to an end of its loop.
pub on_ready_read_total :
    (c : PacketCodec) (bytes : List ℕ) → (r : Received) × (on_ready_read c bytes ≡ some r)
unfolding on_ready_read
on_ready_read_total c bytes =
    read_loop_total (rounds (append_data c bytes)) (append_data c bytes) (omega arith)

-- Cutting a delivery in two changes nothing: if the first part leaves the connection open, then
-- delivering `xs` and then `ys` hands out the packets, and leaves the codec and the error, of
-- delivering `xs ++ ys` at once.
pub on_ready_read-append :
    (c : PacketCodec) (xs ys : List ℕ) (r s : Received)
    → on_ready_read c xs ≡ some r
    → r.error ≡ no_error
    → on_ready_read r.codec ys ≡ some s
    → on_ready_read c (xs ++ ys) ≡ some (record s { packets = r.packets ++ s.packets })
unfolding on_ready_read
on_ready_read-append c xs ys r s e n k =
    let f = rounds (append_data c xs) in
    let g = rounds (append_data r.codec ys) in
    let whole = append_data c (xs ++ ys) in
    let (t, q) = read_loop_total (rounds whole) whole (omega arith) in
    let joined = read_loop-append f g (append_data c xs) ys r s e n k in
    let joined' : read_loop (f + g) whole ≡ some (record s { packets = r.packets ++ s.packets }) =
      rw append_data_twice at joined in
    let same = read_loop_same (f + g) (rounds whole) whole _ t joined' (omega arith) q in cc

abbrev pub encode_all : List Packet → List ℕ
encode_all [] = []
encode_all (p ∷ ps) = encode p ++ encode_all ps

read_loop-encode_all :
    (ps : List Packet) (f : ℕ)
    → All IsSendable ps
    → length (encode_all ps) < f
    → read_loop f (record { buffer = encode_all ps })
      ≡ some (record { packets = ps; codec = record { buffer = [] }; error = no_error })
read_loop-encode_all ps zero v h = absurd (omega arith)
read_loop-encode_all [] (suc f) v h = read_loop_more f _ (unfold next_packet in refl)
read_loop-encode_all (p ∷ ps) (suc f) (v, vs) h =
    let one = next_packet-encode p default_packet (encode_all ps) v in
    let smaller =
      next_packet-shrinks (record { buffer = encode_all (p ∷ ps) }) default_packet
        (ground (arith, one)) in
    ground (
      arith,
      one,
      smaller,
      read_loop_ready f (record { buffer = encode_all (p ∷ ps) }),
      read_loop-encode_all ps f vs,
    )

-- A peer that sends packets of the current version within the limits is read back exactly: the
-- loop over their encodings hands out these packets in order and empties the buffer.
pub on_ready_read-encode_all :
    (ps : List Packet)
    → All IsSendable ps
    → on_ready_read (record { buffer = [] }) (encode_all ps)
      ≡ some (record { packets = ps; codec = record { buffer = [] }; error = no_error })
unfolding on_ready_read append_data
on_ready_read-encode_all ps v =
    read_loop-encode_all ps (rounds (record { buffer = encode_all ps })) v (omega arith)
