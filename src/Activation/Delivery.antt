-- ===== src/Activation/Delivery.antt =====
-- A tensor that is sent reaches the receiver that waits for it, and a bad frame reaches nobody.
use mathlib.Core.List.{append_assoc}
use decentralized_llm.Base.{
  ℕ, ◌<◌, ◌^◌, ◌≡◌, refl, sym, ap, subst, ◌∙◌, inl, inr, some, true, List, [], ◌∷◌, ◌++◌, arith,
  length, length-append, get_elem?, get_elem?-append_add, get_elem?-set_self, set, take, drop, ok,
  raise, eof_error, value_error, ltb, ◌==◌, if◌then◌else◌,
}
use decentralized_llm.Base.Dict.{lookup, insert, lookup-insert, nat_eq}
use decentralized_llm.Activation.{
  magic, pack_header, unpack_header, Stream, bytes_of, read_exactly, Future, waiting, resolved,
  Server, Packed, Libraries, receive, finish_receive, set_result, resolve, decode, deliver,
  take_payload, take_header, read_frame, handle_connection, frame_of, send,
}
use decentralized_llm.Base.Bytes.{
  to_bytes, from_bytes, length-to_bytes, from_bytes-to_bytes, take-length, drop-length,
}
use decentralized_llm.Activation.Reading.{read_exactly-IsRead}

-- the bytes are there
read_exactly-enough :
    (k : ℕ) (r : Stream) (front back : List ℕ)
    → bytes_of r ≡ front ++ back
    → length front ≡ k
    → ((read_exactly k r).0 ≡ ok front) × (bytes_of (read_exactly k r).1 ≡ back)
read_exactly-enough k r front back cut size = elim (read_exactly-IsRead k r) [
  | inl (short, e) ↦ absurd (omega (arith, ap length cut, length-append front back))
  | inr (front', back', cut', size', e, left) ↦ (
    e
        ∙ ap ok (
            sym (take-length k front' back' size')
            ∙ ap (take k) (sym cut' ∙ cut)
            ∙ take-length k front back size),
    left
        ∙ sym (drop-length k front' back' size')
        ∙ ap (drop k) (sym cut' ∙ cut)
        ∙ drop-length k front back size,
  )
]

-- they are not
read_exactly-short :
    (k : ℕ) (r : Stream) → length (bytes_of r) < k → (read_exactly k r).0 ≡ raise eof_error
read_exactly-short k r short = elim (read_exactly-IsRead k r) [
  | inl (h, e) ↦ e
  | inr (front, back, cut, size, e, left) ↦
      absurd (omega (arith, ap length cut, length-append front back))
]

abbrev header_of : (job_id len : ℕ) → List ℕ
header_of job_id len = to_bytes 4 magic ++ to_bytes 8 job_id ++ to_bytes 4 len

length-header_of : (job_id len : ℕ) → length (header_of job_id len) ≡ 16
unfolding to_bytes
length-header_of job_id len = omega (
  arith,
  length-append (to_bytes 4 magic ++ to_bytes 8 job_id) (to_bytes 4 len),
  length-append (to_bytes 4 magic) (to_bytes 8 job_id),
  length-to_bytes 4 magic,
  length-to_bytes 8 job_id,
  length-to_bytes 4 len,
)

unpack_header-fields :
    (a b c : List ℕ)
    → length a ≡ 4
    → length b ≡ 8
    → unpack_header (a ++ b ++ c) ≡ (from_bytes 0 a, (from_bytes 0 b, from_bytes 0 c))
unfolding unpack_header
unpack_header-fields a b c four eight =
    let regroup : a ++ b ++ c ≡ a ++ (b ++ c) = append_assoc a b c in
    let first : take 4 (a ++ b ++ c) ≡ a = ap (take 4) regroup ∙ take-length 4 a (b ++ c) four in
    let after : drop 4 (a ++ b ++ c) ≡ b ++ c =
      ap (drop 4) regroup ∙ drop-length 4 a (b ++ c) four in
    let second : take 8 (drop 4 (a ++ b ++ c)) ≡ b = ap (take 8) after ∙ take-length 8 b c eight in
    let third : drop 12 (a ++ b ++ c) ≡ c =
      drop-length 12 (a ++ b) c (omega (arith, length-append a b)) in
    rw (first, second, third) refl

unpack_header-header_of :
    (job_id len : ℕ)
    → job_id < 256 ^ 8
    → len < 256 ^ 4
    → unpack_header (header_of job_id len) ≡ (magic, (job_id, len))
unpack_header-header_of job_id len small short =
    unpack_header-fields (to_bytes 4 magic) (to_bytes 8 job_id) (to_bytes 4 len)
      (length-to_bytes 4 magic) (length-to_bytes 8 job_id)
    ∙ rw
        (
          from_bytes-to_bytes 4 magic (omega arith),
          from_bytes-to_bytes 8 job_id small,
          from_bytes-to_bytes 4 len short,
        )
        refl

module _ {T : Type 0} (lib : Libraries T) where
  -- what is sent for a tensor
  abbrev pub packed_of : T → Packed
  packed_of t = record {
    shape = lib.shape_of t;
    dtype = lib.dtype_of t;
    data_bytes = lib.storage_of t;
  }

  send-frame :
      (job_id : ℕ) (t : T)
      → job_id < 256 ^ 8
      → length (lib.pack (packed_of t)) < 256 ^ 4
      → send lib job_id t
        ≡ ok (header_of job_id (length (lib.pack (packed_of t))) ++ lib.pack (packed_of t))
  unfolding send frame_of pack_header
  send-frame job_id t small short =
      let in_id : ltb job_id (256 ^ 8) ≡ true = ground arith in
      let in_length : ltb (length (lib.pack (packed_of t))) (256 ^ 4) ≡ true = ground arith in
      rw (in_id, in_length) refl

  take_header-good :
      (bs : List ℕ) (job_id len : ℕ) (r : Stream) (s : Server T)
      → unpack_header bs ≡ (magic, (job_id, len))
      → take_header lib (ok bs, r) s ≡ take_payload lib job_id (read_exactly len r).0 s
  unfolding take_header
  take_header-good bs job_id len r s fields =
      subst
        (λ u.
          (if u.0 == magic
            then take_payload lib u.1.0 (read_exactly u.1.1 r).0 s
            else (raise value_error, s))
          ≡ take_payload lib job_id (read_exactly len r).0 s)
        (sym fields) refl

  read_frame-frame :
      (job_id : ℕ) (t : T) (payload rest : List ℕ) (r : Stream) (s : Server T)
      → job_id < 256 ^ 8
      → length payload < 256 ^ 4
      → decode lib (lib.unpack payload) ≡ ok t
      → bytes_of r ≡ (header_of job_id (length payload) ++ payload) ++ rest
      → read_frame lib r s ≡ (ok tt, resolve job_id t s)
  unfolding read_frame take_header take_payload deliver
  read_frame-frame job_id t payload rest r s small short decoded arrives =
      let bs : List ℕ = header_of job_id (length payload) in
      let header : (read_exactly 16 r).0 ≡ ok bs =
        (read_exactly-enough 16 r bs (payload ++ rest) (arrives ∙ append_assoc bs payload rest)
          (length-header_of job_id (length payload))).0 in
      let after : bytes_of (read_exactly 16 r).1 ≡ payload ++ rest =
        (read_exactly-enough 16 r bs (payload ++ rest) (arrives ∙ append_assoc bs payload rest)
          (length-header_of job_id (length payload))).1 in
      let body : (read_exactly (length payload) (read_exactly 16 r).1).0 ≡ ok payload =
        (read_exactly-enough (length payload) (read_exactly 16 r).1 payload rest after refl).0 in
      let opened : read_frame lib r s ≡ take_header lib (ok bs, (read_exactly 16 r).1) s =
        ap (λ res. take_header lib (res, (read_exactly 16 r).1) s) header in
      opened
      ∙ take_header-good bs job_id (length payload) (read_exactly 16 r).1 s
          (unpack_header-header_of job_id (length payload) small short)
      ∙ ap (λ res. take_payload lib job_id res s) body
      ∙ ap (λ res. deliver lib job_id res s) decoded

  lookup-here :
      (job_id fut : ℕ) (s : Server T) → lookup job_id (insert job_id fut s.pending) ≡ some fut
  lookup-here job_id fut s = ground (arith, lookup-insert job_id job_id fut s.pending)

  -- a receiver that has just started gets the tensor
  resolve-received :
      (job_id : ℕ) (t : T) (s : Server T)
      → (finish_receive job_id (receive job_id s).0 (resolve job_id t (receive job_id s).1)).0
        ≡ ok t
  unfolding receive finish_receive resolve set_result
  resolve-received job_id t s =
      let fut : ℕ = length s.futures in
      let futures : List (Future T) = s.futures ++ waiting ∷ [] in
      let there : get_elem? futures fut ≡ some waiting =
        get_elem?-append_add s.futures (waiting ∷ []) fut 0 (omega arith) in
      let sets : get_elem? (set futures fut (resolved t)) fut ≡ some (resolved t) =
        get_elem?-set_self futures fut (resolved t)
          (omega (arith, length-append s.futures (waiting ∷ []))) in
      rw (lookup-here job_id fut s, resolve) (rw (there, set_result) (rw sets refl))

  -- With msgpack and torch functions that give the tensor back, and a job id and payload that fit
  -- their fields, send returns a frame: a receiver that has just started to wait for the job gets
  -- the tensor from a stream that starts with the frame, however it is cut into chunks.
  pub send-receive :
      (job_id : ℕ) (t : T)
      → decode lib (lib.unpack (lib.pack (packed_of t))) ≡ ok t
      → job_id < 256 ^ 8
      → length (lib.pack (packed_of t)) < 256 ^ 4
      → (frame : List ℕ) × (send lib job_id t ≡ ok frame)
        × ((rest : List ℕ) (r : Stream) (s : Server T)
            → bytes_of r ≡ frame ++ rest
            → (finish_receive job_id
                (receive job_id s).0
                (handle_connection lib r (receive job_id s).1)).0
              ≡ ok t)
  unfolding handle_connection
  send-receive job_id t decoded small short =
      let payload : List ℕ = lib.pack (packed_of t) in
      (
        header_of job_id (length payload) ++ payload,
        send-frame job_id t small short,
        λ rest r s arrives.
            ap (λ q. (finish_receive job_id (receive job_id s).0 q.1).0)
              (read_frame-frame job_id t payload rest r (receive job_id s).1 small short decoded
                arrives)
            ∙ resolve-received job_id t s,
      )
