-- ===== src/Activation/Whole.antt =====
-- A frame is read as if the stream were one chunk.
use decentralized_llm.Base.{
  ℕ, ◌≡◌, refl, sym, ap, ◌∙◌, inl, inr, true, false, List, arith, length, length-append, take, drop,
  Result, ok, raise, eof_error, value_error, ltb, ◌==◌, if◌then◌else◌,
}
use decentralized_llm.Activation.{
  magic, header_size, unpack_header, Stream, bytes_of, read_exactly, Server, Libraries,
  take_payload, take_header, read_frame,
}
use decentralized_llm.Base.Bytes.{take-length, drop-length}
use decentralized_llm.Activation.Reading.{read_exactly-IsRead}

-- the first `n` bytes, and the others, of bytes that are all there
unfoldable pub split_off : (n : ℕ) → List ℕ → Result (List ℕ)
split_off n bytes = if ltb (length bytes) n then raise eof_error else ok (take n bytes)

read_exactly-split_off :
    (n : ℕ) (r : Stream)
    → ((read_exactly n r).0 ≡ split_off n (bytes_of r))
      × ((bs : List ℕ)
          → (read_exactly n r).0 ≡ ok bs
          → bytes_of (read_exactly n r).1 ≡ drop n (bytes_of r))
unfolding split_off
read_exactly-split_off n r = elim (read_exactly-IsRead n r) [
  | inl (short, e) ↦
      let test : ltb (length (bytes_of r)) n ≡ true = ground arith in
      (e ∙ rw test refl, λ bs h. absurd (ground arith))
  | inr (front, back, cut, size, e, left) ↦
      let test : ltb (length (bytes_of r)) n ≡ false =
        ground (arith, ap length cut, length-append front back) in
      (
        e ∙ rw test (ap ok (sym (take-length n front back size) ∙ ap (take n) (sym cut))),
        λ bs h. left ∙ sym (drop-length n front back size) ∙ ap (drop n) (sym cut),
      )
]

module _ {T : Type 0} (lib : Libraries T) where
  -- the frame at the front of bytes that are all there, once its header is cut off
  unfoldable pub whole_payload :
      Result (List ℕ) → (rest : List ℕ) → Server T → Result (Unit {0}) × Server T
  unfolding split_off
  whole_payload (raise e) rest s = (raise e, s)
  whole_payload (ok bs) rest s =
      let (m, (job_id, payload_length)) = unpack_header bs in
      if m == magic
      then take_payload lib job_id (split_off payload_length rest) s
      else (raise value_error, s)

  unfoldable pub whole_frame : List ℕ → Server T → Result (Unit {0}) × Server T
  unfolding whole_payload
  whole_frame bytes s = whole_payload (split_off header_size bytes) (drop header_size bytes) s

  after_header :
      (r : Stream) (s : Server T) (res : Result (List ℕ)) (r' : Stream) (rest : List ℕ)
      → ((bs : List ℕ) → res ≡ ok bs → bytes_of r' ≡ rest)
      → take_header lib (res, r') s ≡ whole_payload res rest s
  unfolding take_header whole_payload
  after_header r s (raise e) r' rest left = refl
  after_header r s (ok bs) r' rest left =
      ap
        (λ payload.
          if (unpack_header bs).0 == magic
          then take_payload lib (unpack_header bs).1.0 payload s
          else (raise value_error, s))
        ((read_exactly-split_off (unpack_header bs).1.1 r').0
          ∙ ap (split_off (unpack_header bs).1.1) (left bs refl))

  -- Reading a frame from a stream of chunks does the same as reading it from all bytes of the
  -- stream at once: EOFError where the header or the payload is short, ValueError where the magic
  -- number is another, what the libraries raise, and no future changed then.
  pub read_frame-whole_frame :
      (r : Stream) (s : Server T) → read_frame lib r s ≡ whole_frame (bytes_of r) s
  unfolding read_frame whole_frame
  read_frame-whole_frame r s =
      after_header r s (read_exactly header_size r).0 (read_exactly header_size r).1
        (drop header_size (bytes_of r)) (read_exactly-split_off header_size r).1
      ∙ ap (λ res. whole_payload res (drop header_size (bytes_of r)) s)
          (read_exactly-split_off header_size r).0
