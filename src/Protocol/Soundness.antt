-- ===== src/Protocol/Soundness.antt =====
-- What a success and each error of `proto_decode` say of the bytes.
use embedded_device_forwarde.Prelude.{
  subst, get_or, ◌%◌, ℕ, zero, suc, ◌+◌, ◌≤◌, ◌≡◌, refl, sym, ◌∙◌, ap, ap₂, List, [], ◌∷◌, ◌++◌,
  append_assoc, arith, length, take, drop, length-take, length-drop, take-length, take-append-drop,
  drop-drop,
}
use embedded_device_forwarde.Protocol.Header.{
  Header, InRange, magic, version, max_payload, hdr_size, read_header, header_bytes, bytes16,
  bytes32, word16, word32, Bytes, IsByte,
}
use embedded_device_forwarde.Protocol.Encode.{fill, frame_bytes}
use embedded_device_forwarde.Protocol.Decode.{frame, decode}

-- The bytes from index `i` on, read one by one.
cells : ℕ → ℕ → List ℕ → List ℕ
cells zero i buf = []
cells (suc n) i buf = get_or buf i 0 ∷ cells n (suc i) buf

cells_shift : (n i x : ℕ) (buf : List ℕ) → cells n (suc i) (x ∷ buf) ≡ cells n i buf
unfolding cells
cells_shift zero i x buf = refl
cells_shift (suc n) i x buf = ap (λ l. get_or buf i 0 ∷ l) (cells_shift n (suc i) x buf)

take-cells : (n : ℕ) (buf : List ℕ) → n ≤ length buf → take n buf ≡ cells n 0 buf
unfolding cells
take-cells zero buf h = refl
take-cells (suc n) [] h = absurd (omega arith)
take-cells (suc n) (x ∷ buf) h =
    ap (λ l. x ∷ l) (take-cells n buf (omega arith) ∙ sym (cells_shift n 0 x buf))

get_or-IsByte : (buf : List ℕ) (i : ℕ) → Bytes buf → IsByte (get_or buf i 0)
get_or-IsByte [] i bs = omega arith
get_or-IsByte (x ∷ buf) zero bs = bs.0
get_or-IsByte (x ∷ buf) (suc i) bs = get_or-IsByte buf i bs.1

bytes16-word16 : (a b : ℕ) → IsByte a → IsByte b → bytes16 (word16 a b) ≡ a ∷ b ∷ []
bytes16-word16 a b ha hb = ap₂ (λ x y. x ∷ y ∷ []) (omega arith) (omega arith)

bytes32-word32 :
    (a b c d : ℕ)
    → IsByte a
    → IsByte b
    → IsByte c
    → IsByte d
    → bytes32 (word32 a b c d) ≡ a ∷ b ∷ c ∷ d ∷ []
bytes32-word32 a b c d ha hb hc hd =
    ap₂ ◌++◌ (ap₂ (λ x y. x ∷ y ∷ []) (omega arith) (omega arith))
      (ap₂ (λ x y. x ∷ y ∷ []) (omega arith) (omega arith))

header_cells :
    (buf : List ℕ)
    → hdr_size ≤ length buf
    → Bytes buf
    → header_bytes (read_header buf) ≡ take hdr_size buf
unfolding cells
header_cells buf long bs =
    ap₂ ◌++◌ (bytes16-word16 (at 0) (at 1) (byte 0) (byte 1)) (
      ap₂ (λ v c. v ∷ c ∷ bytes32 (read_header buf).seq ++ bytes32 (read_header buf).payload_len)
        (low 2) (low 3)
      ∙ ap₂ (λ s p. at 2 ∷ at 3 ∷ s ++ p)
          (bytes32-word32 (at 4) (at 5) (at 6) (at 7) (byte 4) (byte 5) (byte 6) (byte 7))
          (bytes32-word32 (at 8) (at 9) (at 10) (at 11) (byte 8) (byte 9) (byte 10) (byte 11)))
    ∙ sym (take-cells hdr_size buf long)
  where
    at : ℕ → ℕ
    at i = get_or buf i 0

    byte : (i : ℕ) → IsByte (at i)
    byte i = get_or-IsByte buf i bs

    low : (i : ℕ) → at i % 256 ≡ at i
    low i = omega (arith, byte i)

-- A header that is read from bytes has fields within their types.
pub read_header-InRange : (buf : List ℕ) → Bytes buf → InRange (read_header buf)
read_header-InRange buf bs =
    let byte : (i : ℕ) → IsByte (get_or buf i 0) = λ i. get_or-IsByte buf i bs in
    record {
      magic_u16 = omega (arith, byte 0, byte 1);
      version_u8 = byte 2;
      cmd_u8 = byte 3;
      seq_u32 = omega (arith, byte 4, byte 5, byte 6, byte 7);
      payload_len_u32 = omega (arith, byte 8, byte 9, byte 10, byte 11);
    }

-- What a successful decode says.
pub record Frames (buf : List ℕ) (n : ℕ) (h : Header) (payload : List ℕ) : Type 0 where
  pub total : n ≡ hdr_size + h.payload_len
  pub small : h.payload_len ≤ max_payload
  pub within : n ≤ length buf
  pub is_magic : h.magic_field ≡ magic
  pub is_version : h.version_field ≡ version
  pub is_header : read_header buf ≡ h
  pub is_payload : payload ≡ take h.payload_len (drop hdr_size buf)

pub decode-Frames :
    (buf : List ℕ) {n : ℕ} {h : Header} {payload : List ℕ}
    → decode buf ≡ frame n h payload
    → Frames buf n h payload
unfolding decode
decode-Frames buf e = ground arith

split_at_payload :
    (buf : List ℕ) (n : ℕ)
    → take hdr_size buf ++ take n (drop hdr_size buf) ++ drop (hdr_size + n) buf ≡ buf
split_at_payload buf n =
    rw (append_assoc, ← drop-drop n hdr_size buf, take-append-drop) (take-append-drop hdr_size buf)

-- A frame that `proto_decode` accepts is, byte for byte, the encoding of the header and payload
-- that it hands out: the buffer starts with it, and what follows is left for the next call.
pub decode_sound :
    (buf : List ℕ) {n : ℕ} {h : Header} {payload : List ℕ}
    → Bytes buf
    → decode buf ≡ frame n h payload
    → (buf ≡ frame_bytes h payload ++ drop n buf)
      × (n ≡ hdr_size + h.payload_len)
      × (length payload ≡ h.payload_len)
      × (h.payload_len ≤ max_payload)
      × (fill h ≡ h)
      × InRange h
decode_sound buf {n} {h} {payload} bs e =
    let f = decode-Frames buf e in
    let filled : fill h ≡ h = ground (arith, f.is_magic, f.is_version) in
    let size : length payload ≡ h.payload_len = omega (
      arith,
      ap length f.is_payload,
      length-take h.payload_len (drop hdr_size buf),
      length-drop hdr_size buf,
      f.within,
      f.total,
    ) in
    (
      sym (split_at_payload buf h.payload_len)
          ∙ ap₂ ◌++◌
              (ap₂ ◌++◌
                (sym (header_cells buf (omega (arith, f.within, f.total)) bs)
                  ∙ ap header_bytes (f.is_header ∙ sym filled))
                (sym f.is_payload ∙ sym (take-length h.payload_len payload (omega arith))))
              (ap (λ k. drop k buf) (sym f.total)),
      f.total,
      size,
      f.small,
      filled,
      subst InRange f.is_header (read_header-InRange buf bs),
    )
