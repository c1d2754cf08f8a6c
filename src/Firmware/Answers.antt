-- ===== src/Firmware/Answers.antt =====
-- What one frame does, `process_frame`, and the invariant of the cached acknowledgement.
use native.Mathlib.Decide.{ℕ_discrete}
use devagent.Base.{
  ℕ, ◌%◌, true, false, ◌≡◌, ◌⊎◌, inl, inr, refl, sym, List, [], ◌∷◌, arith, Bool-cases, ◌==◌,
  ==_iff, ltb, length, ok, err, Result-cases,
}
use devagent.Protocol.Urpc.{
  UrpcRequest, UrpcAck, encode_request, decode_ack, read_request, encode_ack,
}
use devagent.Protocol.Urpc.Ack.{decode_ack-encode_ack}
use devagent.Protocol.Urpc.Request.{read_request-encode_request}
use devagent.Firmware.Commands.{Executes, run_command-Executes}
use devagent.Firmware.{
  Agent, Reaction, Read, initial, ack_bytes, send_ack, run_command, answer_request, process_frame,
  on_read, urpc_rx_task,
}

-- The request has the number of the last one that was answered from a command.
pub record IsRepeat (req : UrpcRequest) (agent : Agent) : Type 0 where
  pub answered : agent.has_last_ack ≡ true
  pub same_seq : req.seq ≡ agent.last_seq

pub IsRepeat-cases : (req : UrpcRequest) (agent : Agent) → IsRepeat req agent ⊎ ¬ IsRepeat req agent
IsRepeat-cases req agent = elim (Bool-cases agent.has_last_ack) [
  | inr never ↦ inr (λ repeat. absurd (ground (arith, repeat.answered)))
  | inl answered ↦ elim (ℕ_discrete req.seq agent.last_seq) [
    | yes same ↦ inl (record { answered = answered; same_seq = same })
    | no other ↦ inr (λ repeat. other repeat.same_seq)
  ]
]

pub answer_request-repeat :
    (queue_depth : ℕ) (req : UrpcRequest) (agent : Agent)
    → IsRepeat req agent
    → answer_request queue_depth req agent ≡ (agent, [], agent.last_ack)
unfolding answer_request
answer_request-repeat queue_depth req agent repeat =
    let same : (req.seq == agent.last_seq) ≡ true = (==_iff _ _).1 repeat.same_seq in
    rw (answer_request, repeat.answered, same) refl

-- The acknowledgement of a new request, and the agent that caches it.
abbrev pub ack_of : ℕ → UrpcRequest → List ℕ
ack_of queue_depth req = ack_bytes req.seq (run_command req).0 (queue_depth % 256)

pub answer_request-new :
    (queue_depth : ℕ) (req : UrpcRequest) (agent : Agent)
    → ¬ IsRepeat req agent
    → answer_request queue_depth req agent ≡ (
      record { last_seq = req.seq; last_ack = ack_of queue_depth req; has_last_ack = true },
      (run_command req).1,
      ack_of queue_depth req,
    )
unfolding answer_request send_ack
answer_request-new queue_depth req agent new = elim (Bool-cases agent.has_last_ack) [
  | inr never ↦ rw (answer_request, never) refl
  | inl answered ↦ elim (Bool-cases (req.seq == agent.last_seq)) [
    | inl same ↦ absurd (new (record { answered = answered; same_seq = (==_iff _ _).0 same }))
    | inr other ↦ rw (answer_request, answered, other) refl
  ]
]

pub process_frame-read :
    (queue_depth : ℕ) (frame : List ℕ) (req : UrpcRequest) (agent : Agent)
    → read_request frame ≡ ok req
    → process_frame queue_depth frame agent ≡ answer_request queue_depth req agent
unfolding process_frame
process_frame-read queue_depth frame req agent read = rw (process_frame, read) refl

pub process_frame-refused :
    (queue_depth : ℕ) (frame : List ℕ) (e : UrpcAck) (agent : Agent)
    → read_request frame ≡ err e
    → process_frame queue_depth frame agent ≡ (agent, [], ack_bytes e.seq e.status e.queue_depth)
unfolding process_frame send_ack
process_frame-refused queue_depth frame e agent refused = rw (process_frame, refused) refl

-- The cached acknowledgement is one of the last request.
pub data CachesAck (agent : Agent) : Type 0 where
  nothing_cached : agent.has_last_ack ≡ false → CachesAck agent
  caches :
      (status queue_depth : ℕ)
      → agent.last_ack ≡ ack_bytes agent.last_seq status queue_depth
      → CachesAck agent

process_frame-CachesAck :
    (queue_depth : ℕ) (frame : List ℕ) (agent : Agent)
    → CachesAck agent
    → CachesAck (process_frame queue_depth frame agent).0
process_frame-CachesAck queue_depth frame agent cached = elim (Result-cases (read_request frame)) [
  | inl (e, refused) ↦ rw (process_frame-refused queue_depth frame e agent refused) cached
  | inr (req, read) ↦ elim (IsRepeat-cases req agent) [
    | inl repeat ↦
        rw
          (
            process_frame-read queue_depth frame req agent read,
            answer_request-repeat queue_depth req agent repeat,
          )
          cached
    | inr new ↦
        rw
          (
            process_frame-read queue_depth frame req agent read,
            answer_request-new queue_depth req agent new,
          )
          (caches (run_command req).0 (queue_depth % 256) refl)
  ]
]

urpc_rx_task-CachesAck :
    (reads : List Read) (agent : Agent) → CachesAck agent → CachesAck (urpc_rx_task reads agent).0
unfolding urpc_rx_task on_read
urpc_rx_task-CachesAck [] agent cached = cached
urpc_rx_task-CachesAck (read ∷ reads) agent cached = elim (Bool-cases (ltb 0 (length read.bytes))) [
  | inr empty ↦ rw (empty) (urpc_rx_task-CachesAck reads agent cached)
  | inl some_bytes ↦ rw (some_bytes) (
      urpc_rx_task-CachesAck reads (process_frame read.queue_depth read.bytes agent).0
        (process_frame-CachesAck read.queue_depth read.bytes agent cached))
]

-- The frame is answered with an acknowledgement of the request. If the last answered request had the
-- same number, nothing else happens; otherwise the request is executed and becomes the last one.
pub record Answered (req : UrpcRequest) (agent : Agent) (reaction : Reaction) : Type 0 where
  pub ack : UrpcAck
  pub decodes : decode_ack reaction.2 ≡ ok ack
  pub same_seq : ack.seq ≡ req.seq
  pub effect :
      (IsRepeat req agent
        × (reaction.0 ≡ agent)
        × (reaction.1 ≡ [])
        × (reaction.2 ≡ agent.last_ack))
      ⊎ (¬ IsRepeat req agent × IsRepeat req reaction.0 × Executes req ack.status reaction.1)

cached_ack : ℕ → ℕ → ℕ → UrpcAck
cached_ack seq status queue_depth = record { seq = seq; status = status; queue_depth = queue_depth }

decode_ack-ack_bytes :
    (seq status queue_depth : ℕ)
    → decode_ack (ack_bytes seq status queue_depth) ≡ ok (cached_ack seq status queue_depth)
unfolding ack_bytes encode_ack cached_ack
decode_ack-ack_bytes seq status queue_depth =
    decode_ack-encode_ack (record { seq = seq; status = status; queue_depth = queue_depth })

repeated :
    {req : UrpcRequest} {agent : Agent}
    → IsRepeat req agent
    → CachesAck agent
    → Answered req agent (agent, [], agent.last_ack)
repeated {req} {agent} repeat (nothing_cached never) = absurd (ground (arith, repeat.answered))
repeated {req} {agent} repeat (caches status queue_depth ack) = record {
  ack = cached_ack agent.last_seq status queue_depth;
  decodes = rw (ack) (decode_ack-ack_bytes agent.last_seq status queue_depth);
  same_seq = unfold cached_ack in sym repeat.same_seq;
  effect = inl (repeat, refl, refl, refl);
}

answer_request-Answered :
    (queue_depth : ℕ) (req : UrpcRequest) (agent : Agent)
    → CachesAck agent
    → Answered req agent (answer_request queue_depth req agent)
answer_request-Answered queue_depth req agent cached = elim (IsRepeat-cases req agent) [
  | inr new ↦ rw (answer_request-new queue_depth req agent new) (record {
    ack = cached_ack req.seq (run_command req).0 (queue_depth % 256);
    decodes = decode_ack-ack_bytes req.seq (run_command req).0 (queue_depth % 256);
    same_seq = unfold cached_ack in refl;
    effect = inr (
      new,
      record { answered = refl; same_seq = refl },
      unfold cached_ack in run_command-Executes req,
    );
  })
  | inl repeat ↦ rw (answer_request-repeat queue_depth req agent repeat) (repeated repeat cached)
]

-- A frame that was encoded is read.
pub read_request-encoded :
    (req : UrpcRequest) (frame : List ℕ)
    → encode_request req ≡ ok frame
    → read_request frame ≡ ok req
read_request-encoded req frame encoded = elim (read_request-encode_request req) [
  | inl (big, refused) ↦ absurd cc
  | inr (fits, made, encoded', size, read) ↦ let same : made ≡ frame = cc in rw (← same) read
]

-- After any reads since the firmware has started, every request that the daemon encodes is answered by
-- an acknowledgement that the daemon decodes and that carries the request's number. If the last
-- request that was answered had the same number, that answer is sent again and nothing else happens,
-- whatever the two requests are. Otherwise the request is executed: one level of one of the pins 1 to 3
-- is set exactly if the request is a well-formed set_relay, and the status is "invalid command" exactly
-- for an unknown command or a pin or level out of range.
pub process_frame-Answered :
    (reads : List Read) (queue_depth : ℕ) (req : UrpcRequest) (frame : List ℕ)
    → encode_request req ≡ ok frame
    → Answered req
        (urpc_rx_task reads initial).0
        (process_frame queue_depth frame (urpc_rx_task reads initial).0)
process_frame-Answered reads queue_depth req frame encoded =
    let agent = (urpc_rx_task reads initial).0 in
    rw (process_frame-read queue_depth frame req agent (read_request-encoded req frame encoded)) (
      answer_request-Answered queue_depth req agent
        (urpc_rx_task-CachesAck reads initial (nothing_cached refl)))
