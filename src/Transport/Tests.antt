-- ===== src/Transport/Tests.antt =====
-- Messages on a concrete wire, and the theorems at concrete inputs.
use mangle_webrtc.Common.{
  ℕ, ◌<◌, ◌^◌, ◌≡◌, ◌≢◌, ◌⊎◌, inl, refl, none, some, List, [], ◌∷◌, ◌++◌, length, ok, err, ready,
  arith,
}
use mangle_webrtc.Transport.{
  Codec, Io, chunk, fail, StreamTransport, transport, u32_to_le_bytes, u32_from_le_bytes,
  frame_size, sent, send_obj, take_message, recv_loop, recv_obj, io_error,
}
use mangle_webrtc.Transport.Frame.{frame}
use mangle_webrtc.Transport.Receive.{Holds}
use mangle_webrtc.Transport.Delivery.{
  broken, quiet, arrive, recv_obj-frame, recv_obj_resume, recv_obj-partial,
}
use mangle_webrtc.Transport.Chunks.{recv_obj_chunks}
use mangle_webrtc.Transport.Send.{send_obj_writes, send_obj_fits}
use mangle_webrtc.Transport.RoundTrip.{IsLawful, AllFit, send_all}

-- Messages are lists of numbers below 10, which are written as they are.
abbrev raw : Codec ℕ (List ℕ)
raw = record { serialize = λ a. some a; deserialize = λ b. ok b }

abbrev works : Io ℕ
works = record { unexpected_eof = 0; write_fault = λ w b. none; flush_fault = λ w. none }

-- The stream breaks behind the first six bytes.
abbrev breaks : Io ℕ
breaks = record { unexpected_eof = 0; write_fault = λ w b. some (2, 7); flush_fault = λ w. none }

abbrev idle : StreamTransport ℕ
idle = transport [] [] []

-- Two messages and a byte, cut within both lengths.
abbrev wire : List ℕ
wire = 2 ∷ 0 ∷ 0 ∷ 0 ∷ 5 ∷ 6 ∷ 0 ∷ 0 ∷ 0 ∷ 0 ∷ []

abbrev cut : StreamTransport ℕ
cut =
    transport (chunk (0 ∷ 0 ∷ []) ∷ chunk (0 ∷ 5 ∷ 6 ∷ 0 ∷ []) ∷ chunk (0 ∷ 0 ∷ 0 ∷ 9 ∷ []) ∷ []) []
      (2 ∷ [])

cut-Holds : Holds cut (wire ++ (9 ∷ [])) []
cut-Holds = record {
  chunks = (0 ∷ 0 ∷ []) ∷ (0 ∷ 5 ∷ 6 ∷ 0 ∷ []) ∷ (0 ∷ 0 ∷ 0 ∷ 9 ∷ []) ∷ [];
  nonempty = omega arith;
  incoming = refl;
  content = refl;
}

received_first :
    recv_obj works raw cut
    ≡ (ready (ok (5 ∷ 6 ∷ [])), transport (chunk (0 ∷ 0 ∷ 0 ∷ 9 ∷ []) ∷ []) [] (0 ∷ []))
unfolding recv_obj recv_loop take_message frame_size u32_from_le_bytes
received_first = refl

sent_wire : (send_all works raw idle ((5 ∷ 6 ∷ []) ∷ [] ∷ [])).stream.outgoing ≡ wire
unfolding send_all send_obj u32_to_le_bytes
sent_wire = refl

raw-IsLawful : IsLawful raw
raw-IsLawful = record { round_trip = λ a msg e. cc }

abbrev two : List (List ℕ)
two = (5 ∷ 6 ∷ []) ∷ [] ∷ []

two-AllFit : AllFit raw two
two-AllFit = (
  record { msg = 5 ∷ 6 ∷ []; serialized = refl; short = omega arith },
  (record { msg = []; serialized = refl; short = omega arith }, tt),
)

recv_obj-frame_example :
    ((recv_obj works raw cut).0 ≡ ready (ok (5 ∷ 6 ∷ [])))
    × Holds (recv_obj works raw cut).1 (0 ∷ 0 ∷ 0 ∷ 0 ∷ 9 ∷ []) []
unfolding frame u32_to_le_bytes
recv_obj-frame_example =
    recv_obj-frame works raw cut (5 ∷ 6 ∷ []) (0 ∷ 0 ∷ 0 ∷ 0 ∷ 9 ∷ []) [] (omega arith) cut-Holds

abbrev given_up : StreamTransport ℕ
given_up = transport (chunk (2 ∷ 0 ∷ []) ∷ []) [] []

recv_obj_resume_example :
    recv_obj works raw (arrive (chunk (0 ∷ 0 ∷ 5 ∷ 6 ∷ []) ∷ []) given_up)
    ≡ recv_obj works raw (arrive (chunk (0 ∷ 0 ∷ 5 ∷ 6 ∷ []) ∷ []) (transport [] [] (2 ∷ 0 ∷ [])))
unfolding recv_obj recv_loop take_message frame_size u32_from_le_bytes
recv_obj_resume_example =
    recv_obj_resume works raw given_up (transport [] [] (2 ∷ 0 ∷ []))
      (chunk (0 ∷ 0 ∷ 5 ∷ 6 ∷ []) ∷ []) refl

recv_obj-partial_example :
    recv_obj works raw (transport (chunk (0 ∷ []) ∷ fail 7 ∷ []) [] (2 ∷ []))
    ≡ (ready (err (io_error 7)), transport [] [] (2 ∷ 0 ∷ []))
recv_obj-partial_example =
    recv_obj-partial works raw (transport (chunk (0 ∷ []) ∷ fail 7 ∷ []) [] (2 ∷ [])) (2 ∷ 0 ∷ [])
      (broken 7 []) (inl (omega arith))
      (record { chunks = (0 ∷ []) ∷ []; nonempty = omega arith; incoming = refl; content = refl })

send_obj_writes_example :
    (unsent : List ℕ) × ((send_obj breaks raw idle (5 ∷ [])).1.stream.outgoing ++ unsent
      ≡ [] ++ frame (5 ∷ []))
    × (((send_obj breaks raw idle (5 ∷ [])).0 ≢ sent) ⊎ (unsent ≡ []))
send_obj_writes_example = send_obj_writes breaks raw idle (5 ∷ []) (5 ∷ []) refl (omega arith)

-- The same bytes in one read.
abbrev uncut : StreamTransport ℕ
uncut = transport (chunk (wire ++ (9 ∷ [])) ∷ []) [] []

uncut-Holds : Holds uncut (wire ++ (9 ∷ [])) []
uncut-Holds = record {
  chunks = (wire ++ (9 ∷ [])) ∷ [];
  nonempty = omega arith;
  incoming = refl;
  content = refl;
}

recv_obj_chunks_example : (recv_obj works raw cut).0 ≡ (recv_obj works raw uncut).0
recv_obj_chunks_example =
    recv_obj_chunks works raw cut uncut (wire ++ (9 ∷ [])) quiet (omega arith) cut-Holds uncut-Holds

sent_five : (send_obj works raw idle (5 ∷ [])).0 ≡ sent
unfolding send_obj
sent_five = refl

send_obj_fits_example :
    (msg : List ℕ) × (raw.serialize (5 ∷ []) ≡ some msg)
    × (length msg < 2 ^ 32)
    × ((send_obj works raw idle (5 ∷ [])).1.stream.outgoing ≡ [] ++ frame msg)
send_obj_fits_example = send_obj_fits works raw idle (5 ∷ []) sent_five
