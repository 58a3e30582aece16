-- ===== src/Activation.antt =====
-- node/activation_stream.py: the wire format, `ActivationServer` and `ActivationClient.send`. A byte is
-- a number. A stream is the list of the chunks that arrive before its end, which `read` takes one at a
-- time, so that any partial reads occur. msgpack and torch are parameters.
mod Tests
pub mod Reading
pub mod Delivery
pub mod Whole
use Prim.Native.String.{String}
use decentralized_llm.Base.{
  ℕ, zero, suc, ◌+◌, ◌*◌, ◌-◌, ◌/◌, ◌%◌, ◌^◌, Option, none, some, List, [], ◌∷◌, ◌++◌, map, ltb,
  ◌==◌, if◌then◌else◌, length, get_elem?, set, take, drop, Result, ok, raise, value_error,
  eof_error, struct_error, timeout_error, cancelled_error,
}
use decentralized_llm.Base.Bytes.{to_bytes, from_bytes}
use decentralized_llm.Base.Dict.{Dict, lookup, insert, erase, nat_eq}

-- The wire format

abbrev pub magic : ℕ
magic = 2893130865

abbrev pub header_size : ℕ
header_size = 16

-- `struct.pack(">IQI", MAGIC, job_id, payload_length)`
unfoldable pub pack_header : (job_id payload_length : ℕ) → Result (List ℕ)
unfolding to_bytes
pack_header job_id payload_length =
    if ltb job_id (256 ^ 8)
    then (if ltb payload_length (256 ^ 4)
        then ok (to_bytes 4 magic ++ to_bytes 8 job_id ++ to_bytes 4 payload_length)
        else raise struct_error)
    else raise struct_error

-- `struct.unpack`, of the bytes of a header: the magic, the job id and the payload's length
unfoldable pub unpack_header : List ℕ → ℕ × (ℕ × ℕ)
unfolding from_bytes
unpack_header bs =
    (from_bytes 0 (take 4 bs), (from_bytes 0 (take 8 (drop 4 bs)), from_bytes 0 (drop 12 bs)))

-- The stream

abbrev pub Stream : Type 0
Stream = List (List ℕ)

-- the bytes before the end
unfoldable pub bytes_of : Stream → List ℕ
bytes_of [] = []
bytes_of (chunk ∷ r) = chunk ++ bytes_of r

-- `reader.read(n)` for a positive n: some bytes, or none at the end
unfoldable pub read : ℕ → Stream → List ℕ × Stream
read n [] = ([], [])
read n ([] ∷ r) = read n r
read n ((b ∷ chunk) ∷ r) = (take n (b ∷ chunk), drop n (b ∷ chunk) ∷ r)

-- what `_read_exactly` does with a chunk; `rest` is the loop on the longer buffer
unfoldable pub read_more :
    (chunk : List ℕ) → Stream → Result (List ℕ) × Stream → Result (List ℕ) × Stream
read_more [] r rest = (raise eof_error, r)
read_more (b ∷ chunk) r rest = rest

-- the loop of `_read_exactly`, on fuel for the bytes that are missing
unfoldable pub read_loop : (fuel n : ℕ) → (buf : List ℕ) → Stream → Result (List ℕ) × Stream
unfolding read read_more
read_loop zero n buf r = (ok buf, r)
read_loop (suc fuel) n buf r =
    let (chunk, r') = read (n - length buf) r in
    let rest = read_loop fuel n (buf ++ chunk) r' in
    if ltb (length buf) n then read_more chunk r' rest else (ok buf, r)

unfoldable pub read_exactly : ℕ → Stream → Result (List ℕ) × Stream
unfolding read_loop
read_exactly n r = read_loop n n [] r

-- The server

pub data Future (T : Type 0) : Type 0 where
  waiting cancelled : Future T
  resolved : T → Future T

-- `_pending` maps a job to its future, an object of the store `futures`
pub record Server (T : Type 0) : Type 0 where
  pub futures : List (Future T)
  pub pending : Dict ℕ ℕ

-- the dictionary of a payload
pub record Packed : Type 0 where
  pub shape : List ℕ
  pub dtype : String
  pub data_bytes : List ℕ

-- the libraries' functions: of torch for a tensor, and of msgpack
pub record Libraries (T : Type 0) : Type 0 where
  pub shape_of : T → List ℕ
  pub dtype_of : T → String
  pub storage_of : T → List ℕ
  pub from_buffer : Packed → Result T
  pub pack : Packed → List ℕ
  pub unpack : List ℕ → Result Packed

module _ {T : Type 0} where
  -- the start of `receive`: a new future, and its place in the store
  unfoldable pub receive : (job_id : ℕ) → Server T → ℕ × Server T
  unfolding insert
  receive job_id s =
      let fut = length s.futures in
      (fut, record { futures = s.futures ++ waiting ∷ []; pending = insert job_id fut s.pending })

  -- the end of `receive`, once its future is done or the timeout has passed
  unfoldable pub await_result : Option (Future T) → Result T
  await_result (some (resolved t)) = ok t
  await_result (some cancelled) = raise cancelled_error
  await_result (some waiting) = raise timeout_error
  await_result none = raise timeout_error

  unfoldable pub finish_receive : (job_id fut : ℕ) → Server T → Result T × Server T
  unfolding await_result erase
  finish_receive job_id fut s =
      (await_result (get_elem? s.futures fut), record s { pending = erase job_id s.pending })

  -- `fut.set_result(tensor)`, where the future is not done
  unfoldable pub set_result : (fut : ℕ) → T → Option (Future T) → List (Future T) → List (Future T)
  set_result fut t (some waiting) futures = set futures fut (resolved t)
  set_result fut t (some cancelled) futures = futures
  set_result fut t (some (resolved u)) futures = futures
  set_result fut t none futures = futures

  unfoldable pub resolve : (job_id : ℕ) → T → Server T → Server T
  unfolding set_result lookup
  resolve job_id t s = elim (lookup job_id s.pending) [
    | none ↦ s
    | some fut ↦ record s { futures = set_result fut t (get_elem? s.futures fut) s.futures }
  ]

  -- `fut.cancel()`
  unfoldable pub cancel : Future T → Future T
  cancel waiting = cancelled
  cancel cancelled = cancelled
  cancel (resolved t) = resolved t

  -- the loop of `stop`
  unfoldable pub cancel_all : Dict ℕ ℕ → List (Future T) → List (Future T)
  unfolding cancel
  cancel_all [] futures = futures
  cancel_all ((job_id, fut) ∷ d) futures = elim (get_elem? futures fut) [
    | none ↦ cancel_all d futures
    | some f ↦ cancel_all d (set futures fut (cancel f))
  ]

  unfoldable pub stop : Server T → Server T
  unfolding cancel_all
  stop s = record { futures = cancel_all s.pending s.futures; pending = [] }

module _ {T : Type 0} (lib : Libraries T) where
  -- the tensor of a payload
  unfoldable pub decode : Result Packed → Result T
  decode (ok obj) = lib.from_buffer obj
  decode (raise e) = raise e

  -- `_read_frame`, once the tensor is there
  unfoldable pub deliver : (job_id : ℕ) → Result T → Server T → Result (Unit {0}) × Server T
  unfolding resolve
  deliver job_id (ok t) s = (ok tt, resolve job_id t s)
  deliver job_id (raise e) s = (raise e, s)

  -- once the payload has been read, or not
  unfoldable pub take_payload :
      (job_id : ℕ) → Result (List ℕ) → Server T → Result (Unit {0}) × Server T
  unfolding deliver decode
  take_payload job_id (ok payload) s = deliver job_id (decode (lib.unpack payload)) s
  take_payload job_id (raise e) s = (raise e, s)

  -- once the header has been read, or not
  unfoldable pub take_header : Result (List ℕ) × Stream → Server T → Result (Unit {0}) × Server T
  unfolding take_payload read_exactly unpack_header
  take_header (raise e, r) s = (raise e, s)
  take_header (ok bs, r) s =
      let (m, (job_id, payload_length)) = unpack_header bs in
      if m == magic
      then take_payload job_id (read_exactly payload_length r).0 s
      else (raise value_error, s)

  unfoldable pub read_frame : Stream → Server T → Result (Unit {0}) × Server T
  unfolding take_header read_exactly
  read_frame r s = take_header (read_exactly header_size r) s

  -- `_handle_connection` logs an exception and goes on
  unfoldable pub handle_connection : Stream → Server T → Server T
  unfolding read_frame
  handle_connection r s = (read_frame r s).1

  -- the frame of `send`
  unfoldable pub frame_of : List ℕ → Result (List ℕ) → Result (List ℕ)
  frame_of payload (ok header) = ok (header ++ payload)
  frame_of payload (raise e) = raise e

  -- `send`: the bytes that it writes
  unfoldable pub send : (job_id : ℕ) → T → Result (List ℕ)
  unfolding frame_of pack_header
  send job_id t =
      let payload = lib.pack (record {
        shape = lib.shape_of t;
        dtype = lib.dtype_of t;
        data_bytes = lib.storage_of t;
      }) in
      frame_of payload (pack_header job_id (length payload))
