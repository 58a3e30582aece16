-- ===== src/Activation/Tests.antt =====
-- Tensors that are lists of bytes, packed as they are.
use decentralized_llm.Base.{
  ℕ, ◌≡◌, refl, List, [], ◌∷◌, ◌++◌, arith, length, ok, raise, timeout_error, eof_error,
}
use decentralized_llm.Base.Dict.{insert, erase, lookup}
use decentralized_llm.Activation.{
  Libraries, Server, Stream, bytes_of, read_frame, handle_connection, receive, finish_receive, send,
  decode,
}
use decentralized_llm.Activation.Delivery.{send-receive}
use decentralized_llm.Activation.Whole.{whole_frame, read_frame-whole_frame}

abbrev lib : Libraries (List ℕ)
lib = record {
  shape_of = λ t. length t ∷ [];
  dtype_of = λ t. "uint8";
  storage_of = λ t. t;
  from_buffer = λ p. ok p.data_bytes;
  pack = λ p. p.data_bytes;
  unpack = λ bs. ok (record { shape = length bs ∷ []; dtype = "uint8"; data_bytes = bs });
}

abbrev idle : Server (List ℕ)
idle = record { futures = []; pending = [] }

-- a frame for job 258 in three chunks, and its bytes
abbrev chunks : Stream
chunks =
    (172 ∷ 113 ∷ 172 ∷ [])
    ∷ (113 ∷ 0 ∷ 0 ∷ 0 ∷ 0 ∷ 0 ∷ 0 ∷ 1 ∷ 2 ∷ 0 ∷ [])
    ∷ []
    ∷ (0 ∷ 0 ∷ 2 ∷ 7 ∷ 8 ∷ [])
    ∷ []

abbrev frame : List ℕ
frame = 172 ∷ 113 ∷ 172 ∷ 113 ∷ 0 ∷ 0 ∷ 0 ∷ 0 ∷ 0 ∷ 0 ∷ 1 ∷ 2 ∷ 0 ∷ 0 ∷ 0 ∷ 2 ∷ 7 ∷ 8 ∷ []

sends : send lib 258 (7 ∷ 8 ∷ []) ≡ ok frame
unfolding send
sends = refl

-- two receivers wait for one job: when the first gives up, it takes the second's place away
drops_second :
    let (first, s1) = receive 258 idle in
    let (second, s2) = receive 258 s1 in
    let (out1, s3) = finish_receive 258 first s2 in
    let s4 = handle_connection lib chunks s3 in
    (out1 ≡ raise timeout_error) × ((finish_receive 258 second s4).0 ≡ raise timeout_error)
unfolding receive finish_receive handle_connection insert erase lookup
drops_second = (refl, refl)

refuses_short : (read_frame lib ((172 ∷ 113 ∷ []) ∷ []) idle).0 ≡ raise eof_error
unfolding read_frame
refuses_short = refl

send-receive_example :
    (sent : List ℕ) × (send lib 258 (7 ∷ 8 ∷ []) ≡ ok sent)
    × ((rest : List ℕ) (r : Stream) (s : Server (List ℕ))
        → bytes_of r ≡ sent ++ rest
        → (finish_receive 258 (receive 258 s).0 (handle_connection lib r (receive 258 s).1)).0
          ≡ ok (7 ∷ 8 ∷ []))
unfolding decode
send-receive_example = send-receive lib 258 (7 ∷ 8 ∷ []) refl (omega arith) (omega arith)

read_frame-whole_frame_example : read_frame lib chunks idle ≡ whole_frame lib (bytes_of chunks) idle
read_frame-whole_frame_example = read_frame-whole_frame lib chunks idle
