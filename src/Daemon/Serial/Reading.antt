-- ===== src/Daemon/Serial/Reading.antt =====
-- How reading an acknowledgement ends on a device that answers.
use devagent.Base.{
  ℕ, zero, suc, ◌-◌, ◌≤◌, ◌≡◌, inl, inr, refl, sym, ap, List, [], ◌∷◌, ◌++◌, arith, leb, Bool-cases,
  length, take, drop, ok, append-nil, length-append, append_assoc, take-append_short,
  drop-append_short, take-append_long, drop-append_long,
}
use devagent.Protocol.Urpc.{UrpcAck, header_ack, encode_ack, decode_ack, crc8}
use devagent.Protocol.Urpc.Ack.{decode_ack_iff}
use devagent.Daemon.Serial.{
  bytes, Port, Outcome, done, read_loop, from_header, first_five, decode_outcome, complete_ack,
  read_urpc_ack,
}

-- The reads return these parts, one each.
abbrev pub in_parts : List (List ℕ) → Port
in_parts [] = []
in_parts (part ∷ parts) = bytes part ∷ in_parts parts

abbrev pub joined : List (List ℕ) → List ℕ
joined [] = []
joined (part ∷ parts) = part ++ joined parts

-- The reads of the port go on with this stream, in some parts.
pub record Streams (stream : List ℕ) (port : Port) : Type 0 where
  pub parts : List (List ℕ)
  pub same_port : port ≡ in_parts parts
  pub same_stream : joined parts ≡ stream

-- What a read gives, and what the port goes on with.
abbrev pub Gives {ℓ} : {A : Type ℓ} → Outcome A × Port → A → List ℕ → Type ℓ
Gives read value stream = (read.0 ≡ done value) × Streams stream read.1

read_loop-in_parts :
    (parts : List (List ℕ)) (r : ℕ) (buf : List ℕ)
    → r ≤ length (joined parts)
    → Gives
        (read_loop r buf (in_parts parts))
        (buf ++ take r (joined parts))
        (drop r (joined parts))
unfolding read_loop
read_loop-in_parts parts zero buf h =
    (ap done (sym (append-nil buf)), record { parts = parts; same_port = refl; same_stream = refl })
read_loop-in_parts [] (suc r) buf h = absurd (omega arith)
read_loop-in_parts (part ∷ parts) (suc r) buf h = elim (Bool-cases (leb (length part) (suc r))) [
  | inl short ↦
      let fits : length part ≤ suc r = ground arith in
      let enough : suc r - length part ≤ length (joined parts) =
        omega (arith, length-append part (joined parts)) in
      rw
        (
          short,
          take-append_short (suc r) part (joined parts) fits,
          drop-append_short (suc r) part (joined parts) fits,
          ← append_assoc buf part (take (suc r - length part) (joined parts)),
        )
        (read_loop-in_parts parts (suc r - length part) (buf ++ part) enough)
  | inr long ↦
      let inside : suc r ≤ length part = ground arith in
      rw
        (
          long,
          take-append_long (suc r) part (joined parts) inside,
          drop-append_long (suc r) part (joined parts) inside,
        )
        (refl, record { parts = drop (suc r) part ∷ parts; same_port = refl; same_stream = refl })
]

complete_ack-frame :
    (a b c d : ℕ) (ack : UrpcAck) (port : Port)
    → decode_ack (header_ack ∷ a ∷ b ∷ c ∷ d ∷ []) ≡ ok ack
    → complete_ack (header_ack ∷ a ∷ b ∷ c ∷ d ∷ []) port ≡ (done ack, port)
unfolding complete_ack from_header first_five decode_outcome
complete_ack-frame a b c d ack port decoded =
    rw (complete_ack, from_header, first_five, decode_outcome, decoded) refl

complete_ack-encode_ack :
    (ack : UrpcAck) (port : Port) → complete_ack (encode_ack ack) port ≡ (done ack, port)
unfolding encode_ack
complete_ack-encode_ack ack port =
    complete_ack-frame ack.seq ack.status ack.queue_depth
      (crc8 (ack.seq ∷ ack.status ∷ ack.queue_depth ∷ [])) ack port
      ((decode_ack_iff (encode_ack ack) ack refl).1 refl)

-- An acknowledgement is read whole however the port cuts it into reads, empty reads included: if the
-- stream starts with its encoding, `readURPCAck` returns it, and the port goes on with what follows.
pub read_urpc_ack-in_parts :
    (ack : UrpcAck) (parts : List (List ℕ)) (more : List ℕ)
    → joined parts ≡ encode_ack ack ++ more
    → Gives (read_urpc_ack (in_parts parts)) ack more
unfolding read_urpc_ack
read_urpc_ack-in_parts ack parts more stream =
    let five : length (encode_ack ack) ≡ 5 = unfold encode_ack in refl in
    let enough : 5 ≤ length (joined parts) =
      rw (stream) (omega (arith, five, length-append (encode_ack ack) more)) in
    let (read, streams) = read_loop-in_parts parts 5 [] enough in
    let frame : take 5 (joined parts) ≡ encode_ack ack = rw (stream) (unfold encode_ack in refl) in
    let left : drop 5 (joined parts) ≡ more = rw (stream) (unfold encode_ack in refl) in
    (
      rw
          (
            read_urpc_ack,
            read,
            frame,
            complete_ack-encode_ack ack (read_loop 5 [] (in_parts parts)).1,
          )
          refl,
      rw
          (
            read_urpc_ack,
            read,
            frame,
            complete_ack-encode_ack ack (read_loop 5 [] (in_parts parts)).1,
            ← left,
          )
          streams,
    )
