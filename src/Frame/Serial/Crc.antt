-- ===== src/Frame/Serial/Crc.antt =====
-- frame-codec/src/serial.rs: `crc16_ccitt_false` stays a u16, and its register loses nothing, so a
-- frame with one altered byte fails the check.
use Prim.Native.Nat.{bit_xor}
use otk_core.Prelude.{
  ℕ, zero, suc, ◌+◌, ◌-◌, ◌*◌, ◌%◌, ◌^◌, ◌≤◌, ◌<◌, ◌≡◌, ◌≢◌, refl, sym, ap, ◌∙◌, [], ◌∷◌, ◌++◌,
  Bytes, arith, err, IsByte, to_be, length, take, drop, length-append, length-to_be, from_be-to_be,
  ◌⊎◌, inl, inr, take-length_append, drop-length_append, if◌then◌else◌, ◌==◌, not, Bool-cases,
  ==_iff,
}
use otk_core.Prelude.Bits.{
  bit_xor_step, bit_xor-lt, bit_xor_cancel, bit_xor_comm, bit_and_below, bit_and_above,
}
use otk_core.Protocol.{Cbor}
use otk_core.Frame.{corrupt_frame}
use otk_core.Frame.Serial.{
  crc_round, crc_rounds, crc_loop, crc16_ccitt_false, check_payload, check_frame,
}

abbrev pub IsU16 : ℕ → Type 0
IsU16 n = n < 2 ^ 16

crc_round_low : (c : ℕ) → c < 2 ^ 15 → crc_round c ≡ c * 2
unfolding crc_round
crc_round_low c h = rw (bit_and_below 15 c h) (let e : c * 2 % 2 ^ 16 ≡ c * 2 = omega arith in e)

crc_round_high : (c : ℕ) → 2 ^ 15 ≤ c → IsU16 c → crc_round c ≡ bit_xor (c * 2 % 2 ^ 16) 0x1021
unfolding crc_round
crc_round_high c l h = rw (bit_and_above 15 c l h)

shifted-IsU16 : (c : ℕ) → IsU16 (c * 2 % 2 ^ 16)
shifted-IsU16 c = omega arith

pub crc_round-IsU16 : (c : ℕ) → IsU16 c → IsU16 (crc_round c)
unfolding crc_round
crc_round-IsU16 c h =
    ground (arith, bit_xor-lt 16 (c * 2 % 2 ^ 16) 0x1021 (omega arith) (omega arith))

high_odd : (c : ℕ) → bit_xor (c * 2 % 2 ^ 16) 0x1021 % 2 ≡ 1
high_odd c = omega (arith, bit_xor_step (c * 2 % 2 ^ 16) 0x1021)

-- A round can be undone: its lowest bit tells which way it went.
crc_round_injective : (c d : ℕ) → IsU16 c → IsU16 d → crc_round c ≡ crc_round d → c ≡ d
crc_round_injective c d hc hd e = elim (lt_or_ge c (2 ^ 15)) [
  | inl lc ↦ elim (lt_or_ge d (2 ^ 15)) [
    | inl ld ↦ omega (arith, crc_round_low c lc, crc_round_low d ld)
    | inr gd ↦ absurd (omega (arith, crc_round_low c lc, crc_round_high d gd hd, high_odd d))
  ]
  | inr gc ↦ elim (lt_or_ge d (2 ^ 15)) [
    | inl ld ↦ absurd (omega (arith, crc_round_low d ld, crc_round_high c gc hc, high_odd c))
    | inr gd ↦
        let same = sym (crc_round_high c gc hc) ∙ e ∙ crc_round_high d gd hd in
        omega (
          arith,
          bit_xor_cancel 16 (c * 2 % 2 ^ 16) (d * 2 % 2 ^ 16) 0x1021 (omega arith) (omega arith)
              (omega arith) same,
        )
  ]
]
  where
    lt_or_ge : (a b : ℕ) → (a < b) ⊎ (b ≤ a)
    lt_or_ge a b = grind arith

crc_rounds-IsU16 : (n c : ℕ) → IsU16 c → IsU16 (crc_rounds n c)
unfolding crc_rounds
crc_rounds-IsU16 zero c h = h
crc_rounds-IsU16 (suc n) c h = crc_rounds-IsU16 n (crc_round c) (crc_round-IsU16 c h)

crc_rounds_injective : (n c d : ℕ) → IsU16 c → IsU16 d → crc_rounds n c ≡ crc_rounds n d → c ≡ d
unfolding crc_rounds
crc_rounds_injective zero c d hc hd e = e
crc_rounds_injective (suc n) c d hc hd e = crc_round_injective c d hc hd (
    crc_rounds_injective n (crc_round c) (crc_round d) (crc_round-IsU16 c hc) (crc_round-IsU16 d hd)
      e)

-- The register after one byte.
abbrev crc_byte : ℕ → ℕ → ℕ
crc_byte c b = crc_rounds 8 (bit_xor c (b * 2 ^ 8 % 2 ^ 16))

crc_byte-IsU16 : (c b : ℕ) → IsU16 c → IsU16 (crc_byte c b)
crc_byte-IsU16 c b h = crc_rounds-IsU16 8 _ (bit_xor-lt 16 c (b * 2 ^ 8 % 2 ^ 16) h (omega arith))

pub crc_loop-IsU16 : (c : ℕ) (bs : Bytes) → IsU16 c → IsU16 (crc_loop c bs)
unfolding crc_loop
crc_loop-IsU16 c [] h = h
crc_loop-IsU16 c (b ∷ bs) h = crc_loop-IsU16 (crc_byte c b) bs (crc_byte-IsU16 c b h)

-- Over one message, different registers stay different.
crc_loop_injective :
    (c d : ℕ) (bs : Bytes) → IsU16 c → IsU16 d → crc_loop c bs ≡ crc_loop d bs → c ≡ d
unfolding crc_loop
crc_loop_injective c d [] hc hd e = e
crc_loop_injective c d (b ∷ bs) hc hd e =
    let w = b * 2 ^ 8 % 2 ^ 16 in
    let after =
      crc_loop_injective (crc_byte c b) (crc_byte d b) bs (crc_byte-IsU16 c b hc)
        (crc_byte-IsU16 d b hd) e in
    let before =
      crc_rounds_injective 8 _ _ (bit_xor-lt 16 c w hc (omega arith))
        (bit_xor-lt 16 d w hd (omega arith)) after in
    bit_xor_cancel 16 c d w hc hd (omega arith) before

crc_byte_injective :
    (c x y : ℕ) → IsU16 c → IsByte x → IsByte y → crc_byte c x ≡ crc_byte c y → x ≡ y
crc_byte_injective c x y h hx hy e =
    let v = x * 2 ^ 8 % 2 ^ 16 in
    let w = y * 2 ^ 8 % 2 ^ 16 in
    let before =
      crc_rounds_injective 8 _ _ (bit_xor-lt 16 c v h (omega arith))
        (bit_xor-lt 16 c w h (omega arith)) e in
    let turned =
      sym (bit_xor_comm 16 c v h (omega arith)) ∙ before ∙ bit_xor_comm 16 c w h (omega arith) in
    omega (arith, bit_xor_cancel 16 v w c (omega arith) (omega arith) h turned)

crc_loop-append : (c : ℕ) (xs ys : Bytes) → crc_loop c (xs ++ ys) ≡ crc_loop (crc_loop c xs) ys
unfolding crc_loop
crc_loop-append c [] ys = refl
crc_loop-append c (x ∷ xs) ys = crc_loop-append (crc_byte c x) xs ys

pub crc16-IsU16 : (bs : Bytes) → IsU16 (crc16_ccitt_false bs)
unfolding crc16_ccitt_false
crc16-IsU16 bs = crc_loop-IsU16 0xFFFF bs (omega arith)

-- Two messages that differ in exactly one byte have different checksums.
pub crc16_one_byte :
    (front back : Bytes) (x y : ℕ)
    → IsByte x
    → IsByte y
    → crc16_ccitt_false (front ++ (x ∷ back)) ≡ crc16_ccitt_false (front ++ (y ∷ back))
    → x ≡ y
unfolding crc16_ccitt_false
crc16_one_byte front back x y hx hy e =
    let c = crc_loop 0xFFFF front in
    let hc = crc_loop-IsU16 0xFFFF front (omega arith) in
    let from_x = crc_loop-append 0xFFFF front (x ∷ back) in
    let from_y = crc_loop-append 0xFFFF front (y ∷ back) in
    let tails = sym from_x ∙ e ∙ from_y in
    crc_byte_injective c x y hc hx hy (
      unfold crc_loop in
      crc_loop_injective (crc_byte c x) (crc_byte c y) back (crc_byte-IsU16 c x hc)
        (crc_byte-IsU16 c y hc) tails)

module _ {A : Type 0} (cbor : Cbor A) (m : ℕ) where
  -- The payload and the checksum are split where they were joined.
  pub check_frame-joined :
      (payload : Bytes) (crc : ℕ)
      → IsU16 crc
      → check_frame cbor m (payload ++ to_be 2 crc) ≡ (
          if not (crc16_ccitt_false payload == crc)
          then err corrupt_frame
          else check_payload cbor m payload)
  unfolding check_frame
  check_frame-joined payload crc h = ground (arith, whole, front, back, from_be-to_be 2 crc h)
    where
      decoded : Bytes
      decoded = payload ++ to_be 2 crc

      whole : length decoded ≡ length payload + 2
      whole = omega (arith, length-append payload (to_be 2 crc), length-to_be 2 crc)

      cut : length decoded - 2 ≡ length payload
      cut = omega (arith, whole)

      front : take (length decoded - 2) decoded ≡ payload
      front = ap (λ k. take k decoded) cut ∙ take-length_append payload (to_be 2 crc)

      back : drop (length decoded - 2) decoded ≡ to_be 2 crc
      back = ap (λ k. drop k decoded) cut ∙ drop-length_append payload (to_be 2 crc)

  -- A frame whose payload differs from the one that the checksum was computed over in exactly one
  -- byte is refused as corrupt.
  pub check_frame-one_byte :
      (front back : Bytes) (x y : ℕ)
      → IsByte x
      → IsByte y
      → x ≢ y
      → check_frame cbor m
          ((front ++ (y ∷ back)) ++ to_be 2 (crc16_ccitt_false (front ++ (x ∷ back))))
        ≡ err corrupt_frame
  check_frame-one_byte front back x y hx hy ne =
      let sent = crc16_ccitt_false (front ++ (x ∷ back)) in
      check_frame-joined (front ++ (y ∷ back)) sent (crc16-IsU16 (front ++ (x ∷ back)))
      ∙ elim (Bool-cases (crc16_ccitt_false (front ++ (y ∷ back)) == sent)) [
        | inl same ↦ absurd (ne (sym (crc16_one_byte front back y x hy hx ((==_iff _ _).0 same))))
        | inr other ↦ rw other
      ]
