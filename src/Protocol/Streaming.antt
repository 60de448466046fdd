-- ===== src/Protocol/Streaming.antt =====
-- `proto_decode` over a stream: what more input does to an answer, and when each error comes.
use embedded_device_forwarde.Prelude.{
  ℕ, zero, suc, ◌+◌, ◌≤◌, ◌<◌, ◌≡◌, ◌≢◌, refl, ◌∙◌, ap, List, [], ◌∷◌, ◌++◌, arith, length, take,
  drop, get_or, ltb, length-append, length-drop, take-append_of_le, drop-append_of_le, ◌↔◌, ◌⊎◌,
  inl, inr, tests, Bool-cases, sym,
}
use embedded_device_forwarde.Protocol.Header.{
  Header, magic, version, max_payload, hdr_size, read_header, bad_magic, bad_version,
  payload_too_large, incomplete, buf_too_small,
}
use embedded_device_forwarde.Protocol.Decode.{fail, decode, check_header, decode_of_header}

get_or-append : (xs ys : List ℕ) (i : ℕ) → i < length xs → get_or (xs ++ ys) i 0 ≡ get_or xs i 0
get_or-append [] ys i h = absurd (omega arith)
get_or-append (x ∷ xs) ys zero h = refl
get_or-append (x ∷ xs) ys (suc i) h = get_or-append xs ys i (omega arith)

read_header-append_of_le :
    (buf more : List ℕ) → hdr_size ≤ length buf → read_header (buf ++ more) ≡ read_header buf
read_header-append_of_le buf more long =
    let at : (i : ℕ) → i < hdr_size → get_or (buf ++ more) i 0 ≡ get_or buf i 0 =
      λ i lt. get_or-append buf more i (omega arith) in
    cc (
      at 0 (omega arith),
      at 1 (omega arith),
      at 2 (omega arith),
      at 3 (omega arith),
      at 4 (omega arith),
      at 5 (omega arith),
      at 6 (omega arith),
      at 7 (omega arith),
      at 8 (omega arith),
      at 9 (omega arith),
      at 10 (omega arith),
      at 11 (omega arith),
    )

payload-append :
    (buf more : List ℕ) (n : ℕ)
    → hdr_size + n ≤ length buf
    → take n (drop hdr_size (buf ++ more)) ≡ take n (drop hdr_size buf)
payload-append buf more n long =
    ap (take n) (drop-append_of_le hdr_size buf more (omega arith))
    ∙ take-append_of_le n (drop hdr_size buf) more (omega (arith, length-drop hdr_size buf))

check_header-longer :
    (h : Header) (n m : ℕ) (buf buf' : List ℕ)
    → n ≤ m
    → (hdr_size + h.payload_len ≤ n
        → take h.payload_len (drop hdr_size buf') ≡ take h.payload_len (drop hdr_size buf))
    → check_header h n buf ≢ fail incomplete
    → check_header h m buf' ≡ check_header h n buf
unfolding check_header
check_header-longer h n m buf buf' le same final = ground arith

-- Any answer other than "incomplete" is final: it is the answer for every longer input too, with
-- the same header, payload and size.
pub decode-append :
    (buf more : List ℕ) → decode buf ≢ fail incomplete → decode (buf ++ more) ≡ decode buf
unfolding decode
decode-append buf more final = elim (Bool-cases (ltb (length buf) hdr_size)) [
  | inl short ↦ absurd (final (rw short))
  | inr long ↦
      let enough : hdr_size ≤ length buf = omega tests in
      let h : Header = read_header buf in
      let here : decode buf ≡ check_header h (length buf) buf =
        decode_of_header buf h enough refl in
      decode_of_header (buf ++ more) h (omega (arith, length-append buf more))
        (read_header-append_of_le buf more enough)
      ∙ check_header-longer h (length buf) (length (buf ++ more)) buf (buf ++ more)
          (omega (arith, length-append buf more)) (payload-append buf more h.payload_len)
          (λ e. final (here ∙ e))
      ∙ sym here
]

-- When each error comes, and no other: the tests in their order, on the header as it was read.
pub record Answers (buf : List ℕ) : Type 0 where
  pub if_incomplete : (decode buf ≡ fail incomplete) ↔ (
      (length buf < hdr_size)
      ⊎ ((hdr_size ≤ length buf)
          × ((read_header buf).magic_field ≡ magic)
          × ((read_header buf).version_field ≡ version)
          × ((read_header buf).payload_len ≤ max_payload)
          × (length buf < hdr_size + (read_header buf).payload_len)))
  pub if_magic :
      (decode buf ≡ fail bad_magic)
      ↔ ((hdr_size ≤ length buf) × ((read_header buf).magic_field ≢ magic))
  pub if_version : (decode buf ≡ fail bad_version) ↔ (
      (hdr_size ≤ length buf)
      × ((read_header buf).magic_field ≡ magic)
      × ((read_header buf).version_field ≢ version))
  pub if_too_large : (decode buf ≡ fail payload_too_large) ↔ (
      (hdr_size ≤ length buf)
      × ((read_header buf).magic_field ≡ magic)
      × ((read_header buf).version_field ≡ version)
      × (max_payload < (read_header buf).payload_len))
  pub never_too_small : decode buf ≢ fail buf_too_small

pub decode-Answers : (buf : List ℕ) → Answers buf
unfolding decode
decode-Answers buf = record {
  if_incomplete = ground arith;
  if_magic = ground arith;
  if_version = ground arith;
  if_too_large = ground arith;
  never_too_small = ground arith;
}
