-- ===== src/Lunix/Protocol/Valid.antt =====
-- The invariant of `struct lunix_protocol_state_struct` in lunix-protocol.c: where each field of a
-- packet lies in the buffer, and that every block of `lunix_protocol_received_buf` keeps it.
use operating_systems_lab_nt.Prelude.{
  ℕ, zero, suc, ◌+◌, ◌≤◌, ◌<◌, bit_xor, ◌≡◌, refl, ◌≢◌, ◌⊎◌, inl, Bool, true, false, List, arith,
  ltb, ltb→lt, ◌==◌, if◌then◌else◌, Bool-cases, inr, All, IsByte, length, get_or, set, length-set,
  All-set-IsByte, get_or-set_ne, get_or-lt_byte,
}
use operating_systems_lab_nt.Lunix.Protocol.{
  Seeking, start_byte, packet_type, destination_address, am_type, am_group, payload_length, payload,
  crc, end_byte, ProtocolState,
}

-- Whether escapes are read in a state.
abbrev pub specials : Seeking → Bool
specials start_byte = false
specials packet_type = false
specials end_byte = false
specials _ = true

-- The length of the field of a state, and its place; byte 6 of the packet is the payload length.
abbrev pub width : Seeking → List ℕ → ℕ
width destination_address packet = 2
width payload packet = get_or packet 6 0
width crc packet = 2
width _ packet = 1

abbrev pub offset : Seeking → List ℕ → ℕ
offset start_byte packet = 0
offset packet_type packet = 1
offset destination_address packet = 2
offset am_type packet = 4
offset am_group packet = 5
offset payload_length packet = 6
offset payload packet = 7
offset crc packet = 7 + get_or packet 6 0
offset end_byte packet = 9 + get_or packet 6 0

-- An escape is pending only inside a field that reads escapes and wants more bytes.
abbrev pub IsEscape : ProtocolState → Type 0
IsEscape st =
    (st.next_is_special ≡ 0)
    ⊎ ((specials st.state ≡ true)
        × ((st.next_is_special ≡ 0x7E) ⊎ (st.next_is_special ≡ 0x7D))
        × (st.bytes_read < st.bytes_to_read))

pub record IsValid (st : ProtocolState) : Type 0 where
  pub within : st.bytes_read ≤ st.bytes_to_read
  pub wanted : st.bytes_to_read ≡ width st.state st.packet
  pub placed : st.pos ≡ offset st.state st.packet + st.bytes_read
  pub buffer : length st.packet ≡ 300
  pub bytes : All IsByte st.packet
  pub escape : IsEscape st

-- A packet has at most 265 bytes, so the check against MAX_PACKET_LEN never fails.
pub pos-le : {st : ProtocolState} → IsValid st → st.pos ≤ 265
pos-le {st} v = go st.state refl
  where
    go : (s : Seeking) → st.state ≡ s → st.pos ≤ 265
    go start_byte e = ground (arith, get_or-lt_byte st.packet 6 v.bytes)
    go _ e = ground (arith, get_or-lt_byte st.packet 6 v.bytes)

-- Changing bit 5 of a number below the bound gives a byte.
flips : ℕ → Bool
flips zero = true
flips (suc bound) = if ltb (bit_xor bound 0x20) 256 then flips bound else false

IsByte-flips : (bound b : ℕ) → b < bound → flips bound ≡ true → IsByte (bit_xor b 0x20)
unfolding flips
IsByte-flips zero b below h = absurd (omega arith)
IsByte-flips (suc bound) b below h = elim (Bool-cases (b == bound)) [
  | inl last ↦
      let same : b ≡ bound = ground arith in
      rw same (elim (Bool-cases (ltb (bit_xor bound 0x20) 256)) [
        | inl fits ↦ ltb→lt (bit_xor bound 0x20) 256 fits
        | inr over ↦ cc
      ])
  | inr earlier ↦
      IsByte-flips bound b (ground arith) (elim (Bool-cases (ltb (bit_xor bound 0x20) 256)) [
        | inl fits ↦ rw fits at h
        | inr over ↦ cc
      ])
]

flips-256 : flips 256 ≡ true
unfolding flips
flips-256 = refl

pub bit_xor-IsByte : (b : ℕ) → IsByte b → IsByte (bit_xor b 0x20)
bit_xor-IsByte b h = IsByte-flips 256 b h flips-256

-- One byte stored where the field's next byte goes.
unfoldable pub stored : ℕ → ProtocolState → ProtocolState
stored v st = record st {
  packet = set st.packet st.pos v;
  pos = st.pos + 1;
  bytes_read = st.bytes_read + 1;
  next_is_special = 0;
}

module _ {st : ProtocolState} (v : IsValid st) (more : st.bytes_read < st.bytes_to_read) where
  -- A byte stored before the payload does not change where the current field lies.
  stored-width : (b : ℕ) → width st.state (set st.packet st.pos b) ≡ width st.state st.packet
  stored-width b = go st.state refl
    where
      go : (s : Seeking) → st.state ≡ s → width s (set st.packet st.pos b) ≡ width s st.packet
      go payload e = get_or-set_ne st.packet b 0 (ground (arith, v.placed))
      go _ e = refl

  stored-offset : (b : ℕ) → offset st.state (set st.packet st.pos b) ≡ offset st.state st.packet
  stored-offset b = go st.state refl
    where
      go : (s : Seeking) → st.state ≡ s → offset s (set st.packet st.pos b) ≡ offset s st.packet
      go crc e =
          let ne : st.pos ≢ 6 = ground (arith, v.placed) in
          omega (arith, get_or-set_ne st.packet b 0 ne)
      go end_byte e =
          let ne : st.pos ≢ 6 = ground (arith, v.placed) in
          omega (arith, get_or-set_ne st.packet b 0 ne)
      go _ e = refl

  pub stored-IsValid : (b : ℕ) → IsByte b → IsValid (stored b st)
  unfolding stored
  stored-IsValid b h = record {
    within = omega arith;
    wanted = omega (arith, v.wanted, stored-width b);
    placed = omega (arith, v.placed, stored-offset b);
    buffer = omega (arith, v.buffer, length-set st.packet st.pos b);
    bytes = All-set-IsByte st.packet st.pos b v.bytes h;
    escape = inl refl;
  }
