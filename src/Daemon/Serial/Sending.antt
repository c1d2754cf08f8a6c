-- ===== src/Daemon/Serial/Sending.antt =====
-- `SendURPC` of internal/daemon/urpc_bridge.go against a silent device, and the frames that it writes.
use devagent.Base.{
  ℕ, zero, suc, ◌-◌, ◌≤◌, ◌≡◌, inl, inr, refl, sym, ap, Bool, true, false, List, [], ◌∷◌, ◌++◌,
  arith, leb, Bool-cases, length, replicate, Result, ok, Result-cases, All,
}
use devagent.Protocol.Urpc.{UrpcRequest, UrpcAck, encode_request}
use devagent.Daemon.Serial.{
  bytes, Port, Outcome, done, error, panicked, waiting, read_loop, read_urpc_ack, SendResult,
  acknowledged, send_waiting, send_panicked, attempts, send_urpc,
}

-- A port whose reads come back empty, each after the read timeout.
abbrev pub silent : ℕ → Port
silent n = replicate n (bytes [])

read_loop-silent : (r n : ℕ) (buf : List ℕ) → read_loop (suc r) buf (silent n) ≡ (waiting, [])
unfolding read_loop
read_loop-silent r zero buf = refl
read_loop-silent r (suc n) buf =
    let empty : leb 0 (suc r) ≡ true = ground arith in
    let all_left : suc r - 0 ≡ suc r = omega arith in
    rw (empty, all_left) (read_loop-silent r n (buf ++ []))

read_urpc_ack-silent : (n : ℕ) → read_urpc_ack (silent n) ≡ (waiting, [])
unfolding read_urpc_ack
read_urpc_ack-silent n =
    let outcome : (read_loop 5 [] (silent n)).0 ≡ waiting =
      ap (λ x. x.0) (read_loop-silent 4 n []) in
    let port : (read_loop 5 [] (silent n)).1 ≡ [] = ap (λ x. x.1) (read_loop-silent 4 n []) in
    rw (read_urpc_ack, outcome, port) refl

-- Against a device that never answers, on a port whose reads come back empty after their timeout,
-- `SendURPC` is still in its first read after any number of reads: one frame has been written, and
-- neither the other attempts nor the error of the timeout are reached, whatever the number of retries.
pub send_urpc-silent :
    (cancelled writes : ℕ → Bool) (retry n : ℕ) (req : UrpcRequest) (frame : List ℕ)
    → encode_request req ≡ ok frame
    → cancelled retry ≡ false
    → writes retry ≡ true
    → send_urpc cancelled writes (suc retry) req (silent n) ≡ (send_waiting, frame ∷ [], [])
unfolding send_urpc attempts
send_urpc-silent cancelled writes retry n req frame encoded live written =
    let outcome : (read_urpc_ack (silent n)).0 ≡ waiting = ap (λ x. x.0) (read_urpc_ack-silent n) in
    let port : (read_urpc_ack (silent n)).1 ≡ [] = ap (λ x. x.1) (read_urpc_ack-silent n) in
    rw (send_urpc, encoded, attempts, live, written, outcome, port) refl

record Written (frame : List ℕ) (bound : ℕ) (frames : List (List ℕ)) : Type 0 where
  few : length frames ≤ bound
  same : All (λ f. f ≡ frame) frames

-- What an attempt adds to what the later ones write, by how its read ends.
after_write :
    (later : SendResult × List (List ℕ) × Port) (port : Port) (outcome : Outcome UrpcAck)
    (frame : List ℕ) (left : ℕ)
    → Written frame left later.1
    → Written frame
        (suc left)
        (elim outcome as (λ x. SendResult × List (List ℕ) × Port) [
          | done ack ↦ (acknowledged ack, frame ∷ [], port)
          | error e ↦ (later.0, frame ∷ later.1, later.2)
          | panicked ↦ (send_panicked, frame ∷ [], port)
          | waiting ↦ (send_waiting, frame ∷ [], port)
        ]).1
after_write later port (done ack) frame left rest = record { few = omega arith; same = (refl, tt) }
after_write later port panicked frame left rest = record { few = omega arith; same = (refl, tt) }
after_write later port waiting frame left rest = record { few = omega arith; same = (refl, tt) }
after_write later port (error e) frame left rest = record {
  few = omega (arith, rest.few);
  same = (refl, rest.same);
}

attempts-Written :
    (cancelled writes : ℕ → Bool) (frame : List ℕ) (retry : ℕ) (port : Port)
    → Written frame retry (attempts cancelled writes frame retry port).1
unfolding attempts
attempts-Written cancelled writes frame zero port = record { few = omega arith; same = tt }
attempts-Written cancelled writes frame (suc left) port =
    let rest = attempts-Written cancelled writes frame left (read_urpc_ack port).1 in
    elim (Bool-cases (cancelled left)) [
      | inl over ↦ rw (over) (record { few = omega arith; same = tt })
      | inr live ↦ elim (Bool-cases (writes left)) [
        | inr refused ↦ rw (live, refused) (record { few = omega arith; same = tt })
        | inl written ↦ rw (live, written) (after_write _ _ (read_urpc_ack port).0 frame left rest)
      ]
    ]

All-same :
    (frame : List ℕ) (frames : List (List ℕ))
    → All (λ f. f ≡ frame) frames
    → All (λ f. ◌≡◌ {A = Result ℕ (List ℕ)} (ok frame) (ok f)) frames
All-same frame [] h = tt
All-same frame (f ∷ frames) (same, h) = (ap ok (sym same), All-same frame frames h)

-- `SendURPC` writes at most as many frames as it has attempts, and each of them is the encoding of the
-- request, so that the device can tell that a retry is the same request.
pub send_urpc-frames :
    (cancelled writes : ℕ → Bool) (retry : ℕ) (req : UrpcRequest) (port : Port)
    → (length (send_urpc cancelled writes retry req port).1 ≤ retry)
      × All (λ frame. encode_request req ≡ ok frame) (send_urpc cancelled writes retry req port).1
unfolding send_urpc
send_urpc-frames cancelled writes retry req port = elim (Result-cases (encode_request req)) [
  | inl (size, refused) ↦ rw (send_urpc, refused) (omega arith, tt)
  | inr (frame, encoded) ↦
      let w = attempts-Written cancelled writes frame retry port in
      rw (send_urpc, encoded)
        (w.few, All-same frame (attempts cancelled writes frame retry port).1 w.same)
]
