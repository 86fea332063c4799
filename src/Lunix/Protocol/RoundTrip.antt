-- ===== src/Lunix/Protocol/RoundTrip.antt =====
-- A packet as the table in lunix-protocol.c lays it out, sent in one piece to
-- `lunix_protocol_received_buf`.
use operating_systems_lab_nt.Prelude.{
  ℕ, ◌+◌, ◌≤◌, ◌<◌, ◌≡◌, refl, sym, ap, ◌∙◌, ◌≢◌, true, false, List, [], ◌∷◌, ◌++◌, arith, ◌==◌,
  All, IsByte, length, get_or, take, append_assoc, get_or-take, length-append,
}
use operating_systems_lab_nt.Lunix.Protocol.{
  Seeking, number, start_byte, packet_type, destination_address, am_type, am_group, payload_length,
  payload, crc, end_byte, ProtocolState, take_byte,
}
use operating_systems_lab_nt.Lunix.Protocol.Blocks.{next_field-IsValid, after-next_field}
use operating_systems_lab_nt.Lunix.Protocol.Frame.{
  encode, escape, fill, Fills, fill-Fills, run-fill, take-stored,
}
use operating_systems_lab_nt.Lunix.Protocol.Keeps.{IsWaiting}
use operating_systems_lab_nt.Lunix.Protocol.Machine.{after, after_more, whole, run, next_field}
use operating_systems_lab_nt.Lunix.Protocol.Refine.{run_end}
use operating_systems_lab_nt.Lunix.Protocol.Stages.{take_byte-IsValid}
use operating_systems_lab_nt.Lunix.Protocol.Valid.{IsValid, offset, specials, width}

-- The fields of a packet, without the framing bytes and the payload length.
pub record Message : Type 0 where
  pub kind : ℕ
  pub destination : ℕ × ℕ
  pub am_kind : ℕ
  pub group : ℕ
  pub content : List ℕ
  pub check : ℕ × ℕ

pub record IsMessage (m : Message) : Type 0 where
  pub kind_byte : IsByte m.kind
  pub destination_bytes : IsByte m.destination.0 × IsByte m.destination.1
  pub am_byte : IsByte m.am_kind
  pub group_byte : IsByte m.group
  pub content_bytes : All IsByte m.content
  pub content_length : length m.content ≤ 255
  pub check_bytes : IsByte m.check.0 × IsByte m.check.1

-- The bytes of a packet, framing included.
abbrev pub raw : Message → List ℕ
raw m =
    0x7E
    ∷ m.kind
    ∷ m.destination.0
    ∷ m.destination.1
    ∷ m.am_kind
    ∷ m.group
    ∷ length m.content
    ∷ (m.content ++ (m.check.0 ∷ m.check.1 ∷ 0x7E ∷ []))

-- The bytes on the line, in front of `rest`: what is between the packet type and the end byte is
-- escaped.
abbrev pub frame : Message → List ℕ → List ℕ
frame m rest =
    0x7E
    ∷ m.kind
    ∷ (escape (m.destination.0 ∷ m.destination.1 ∷ [])
        ++ (escape (m.am_kind ∷ [])
            ++ (escape (m.group ∷ [])
                ++ (escape (length m.content ∷ [])
                    ++ (escape m.content
                        ++ (escape (m.check.0 ∷ m.check.1 ∷ []) ++ (0x7E ∷ rest)))))))

-- The machine at the start of a field, with the bytes before it stored.
record At (t : ProtocolState) (field : Seeking) (before : List ℕ) : Type 0 where
  valid : IsValid t
  here : t.state ≡ field
  fresh : t.bytes_read ≡ 0
  plain : t.next_is_special ≡ 0
  stored_bytes : t.pos ≡ length before
  holds : take t.pos t.packet ≡ before

next_field_keeps :
    (f : Seeking) (t : ProtocolState)
    → f ≢ end_byte
    → let t' = next_field f t in
      (t'.bytes_read ≡ 0)
      × (t'.next_is_special ≡ t.next_is_special)
      × (t'.pos ≡ t.pos)
      × (t'.packet ≡ t.packet)
next_field_keeps start_byte t ne = (refl, refl, refl, refl)
next_field_keeps end_byte t ne = absurd (ne refl)
next_field_keeps _ t ne = (refl, refl, refl, refl)

module _ (f : Seeking) (ne : f ≢ end_byte) (bs before : List ℕ) (t : ProtocolState)
    (a : At t f before) (h : All IsByte bs) (full : length bs ≡ width f t.packet) where
  room : t.bytes_read + length bs ≡ t.bytes_to_read
  room = omega (arith, a.fresh, full, a.valid.wanted, ap (λ (s : Seeking). width s t.packet) a.here)

  fills : Fills bs t (fill bs t)
  fills = fill-Fills bs t a.valid a.plain h (omega (arith, room))

  next-At :
      (g : Seeking)
      → (next_field f (fill bs t)).state ≡ g
      → At (next_field f (fill bs t)) g (before ++ bs)
  next-At g e =
      let k = next_field_keeps f (fill bs t) ne in
      record {
        valid =
            next_field-IsValid f (fills.same ∙ a.here) ne fills.valid
              (omega (arith, fills.read, fills.wanted, room));
        here = e;
        fresh = k.0;
        plain = k.1 ∙ fills.plain;
        stored_bytes = omega (arith, k.2, fills.at, a.stored_bytes, length-append {0} before bs);
        holds = rw (k.2, k.3) (fills.holds ∙ ap (λ (l : List ℕ). l ++ bs) a.holds);
      }

  run-next :
      (rest : List ℕ)
      → run (after t) (encode (specials f) bs ++ rest) ≡ run (after (next_field f (fill bs t))) rest
  run-next rest =
      ap (λ (s : Seeking). run (after t) (encode (specials s) bs ++ rest)) (sym a.here)
      ∙ run-fill bs t rest a.valid a.plain h (omega (arith, room)) (rw a.here ne)
      ∙ ap (λ (t' : ProtocolState). run t' rest)
          (sym (
            after-next_field f (fill bs t) (fills.same ∙ a.here)
              (omega (arith, fills.read, fills.wanted, room)) ne))

abbrev filled : Seeking → List ℕ → ProtocolState → ProtocolState
filled f bs t = next_field f (fill bs t)

distinct : (a b : Seeking) → (number a == number b) ≡ false → a ≢ b
distinct a b h = ground arith

At-start : (t : ProtocolState) → IsWaiting t → t.state ≡ start_byte → At t start_byte []
At-start t w e =
    let one : t.bytes_to_read ≡ 1 =
      omega (arith, w.valid.wanted, ap (λ (s : Seeking). width s t.packet) e) in
    let origin : t.pos ≡ 0 =
      omega (arith, w.valid.placed, ap (λ (s : Seeking). offset s t.packet) e, w.more) in
    record {
      valid = w.valid;
      here = e;
      fresh = omega (arith, w.more);
      plain = ground (arith, w.valid.escape);
      stored_bytes = origin;
      holds = ap (λ (n : ℕ). take n t.packet) origin;
    }

-- A whole packet in the buffer.
pub record Holds (m : Message) (t : ProtocolState) : Type 0 where
  pub valid : IsValid t
  pub is_whole : whole t ≡ true
  pub bytes : take t.pos t.packet ≡ raw m
  pub count : t.pos ≡ length (raw m)

-- The machine reads `line` from `t` as the rest of packet `m`, and stops in front of `rest`.
abbrev Goes : Message → List ℕ → ProtocolState → List ℕ → Type 0
Goes m rest t line = (t' : ProtocolState) × (run (after t) line ≡ (t', rest)) × Holds m t'

-- The bytes before each field.
abbrev head : Message → List ℕ
head m =
    0x7E ∷ m.kind ∷ m.destination.0 ∷ m.destination.1 ∷ m.am_kind ∷ m.group ∷ length m.content ∷ []

abbrev checks : Message → List ℕ
checks m = m.check.0 ∷ m.check.1 ∷ []

raw_assoc : (m : Message) → ((head m ++ m.content) ++ checks m) ++ (0x7E ∷ []) ≡ raw m
raw_assoc m = ap (λ (l : List ℕ). head m ++ l) (append_assoc m.content (checks m) (0x7E ∷ []))

module _ (m : Message) (rest : List ℕ) where
  through :
      (f g : Seeking) (ne : f ≢ end_byte) (bs before line : List ℕ) (t : ProtocolState)
      → (filled f bs t).state ≡ g
      → At t f before
      → All IsByte bs
      → length bs ≡ width f t.packet
      → ((t' : ProtocolState) → At t' g (before ++ bs) → Goes m rest t' line)
      → Goes m rest t (encode (specials f) bs ++ line)
  through f g ne bs before line t e a h full later =
      let w = later (filled f bs t) (next-At f ne bs before t a h full g e) in
      (w.0, run-next f ne bs before t a h full line ∙ w.1, w.2)

  module _ (t : ProtocolState) (a : At t end_byte ((head m ++ m.content) ++ checks m)) where
    end-more : t.bytes_read < t.bytes_to_read
    end-more = omega (arith, a.fresh, a.valid.wanted, ap (λ (s : Seeking). width s t.packet) a.here)

    end-IsValid : IsValid (take_byte false 0x7E t)
    end-IsValid = rw (ap specials a.here) at (take_byte-IsValid 0x7E a.valid end-more (omega arith))

    end-Holds : Holds m (take_byte false 0x7E t)
    unfolding take_byte
    end-Holds = record {
      valid = end-IsValid;
      is_whole = ground (arith, a.here, a.fresh, a.valid.wanted);
      bytes =
          take-stored t 0x7E a.valid ∙ ap (λ (l : List ℕ). l ++ (0x7E ∷ [])) a.holds ∙ raw_assoc m;
      count = omega (
        arith,
        a.stored_bytes,
        ap (length {A = ℕ}) (raw_assoc m),
        length-append ((head m ++ m.content) ++ checks m) (0x7E ∷ []),
      );
    }

    from_end : Goes m rest t (0x7E ∷ rest)
    from_end = (
      take_byte false 0x7E t,
      ap (λ (s : ProtocolState). run s (0x7E ∷ rest)) (after_more t end-more)
          ∙ run_end false t a.valid end-more a.here 0x7E rest,
      end-Holds,
    )

  module _ (g : IsMessage m) where
    from_crc :
        (t : ProtocolState)
        → At t crc (head m ++ m.content)
        → Goes m rest t (escape (checks m) ++ (0x7E ∷ rest))
    from_crc t a =
        through crc end_byte (distinct _ _ refl) (checks m) _ _ t refl a
          (g.check_bytes.0, (g.check_bytes.1, tt)) refl from_end

    -- Byte 6 of the buffer is the length of the payload.
    payload-width :
        (t : ProtocolState) → At t payload (head m) → length m.content ≡ get_or t.packet 6 0
    payload-width t a =
        ap (λ (l : List ℕ). get_or l 6 0) (sym a.holds)
        ∙ get_or-take t.pos t.packet 6 0 (omega (arith, a.stored_bytes))

    from_payload :
        (t : ProtocolState)
        → At t payload (head m)
        → Goes m rest t (escape m.content ++ (escape (checks m) ++ (0x7E ∷ rest)))
    from_payload t a =
        through payload crc (distinct _ _ refl) m.content _ _ t refl a g.content_bytes
          (payload-width t a) from_crc

    from_length :
        (t : ProtocolState)
        → At t payload_length
            (0x7E ∷ m.kind ∷ m.destination.0 ∷ m.destination.1 ∷ m.am_kind ∷ m.group ∷ [])
        → Goes m rest t (
            escape (length m.content ∷ [])
            ++ (escape m.content ++ (escape (checks m) ++ (0x7E ∷ rest))))
    from_length t a =
        through payload_length payload (distinct _ _ refl) (length m.content ∷ []) _ _ t refl a
          (omega (arith, g.content_length), tt) refl from_payload

    -- A packet sent to a machine that seeks a start byte is stored whole.
    pub frame-Holds :
        (t : ProtocolState) → IsWaiting t → t.state ≡ start_byte → Goes m rest t (frame m rest)
    frame-Holds t w e =
        through start_byte packet_type (distinct _ _ refl) (0x7E ∷ []) [] _ t refl (At-start t w e)
          (omega arith, tt) refl
          λ t1 a1.
            through packet_type destination_address (distinct _ _ refl) (m.kind ∷ []) _ _ t1 refl a1
              (g.kind_byte, tt) refl
              λ t2 a2.
                through destination_address am_type (distinct _ _ refl)
                  (m.destination.0 ∷ m.destination.1 ∷ []) _ _ t2 refl a2
                  (g.destination_bytes.0, (g.destination_bytes.1, tt)) refl
                  λ t3 a3.
                    through am_type am_group (distinct _ _ refl) (m.am_kind ∷ []) _ _ t3 refl a3
                      (g.am_byte, tt) refl
                      λ t4 a4.
                        through am_group payload_length (distinct _ _ refl) (m.group ∷ []) _ _ t4
                          refl a4 (g.group_byte, tt) refl from_length
