-- ===== src/Firmware/Retries.antt =====
-- `SendURPC` of internal/daemon/urpc_bridge.go and the firmware together: a request is executed once,
-- however often its frame is sent.
use mathlib.Core.Path.{subst}
use devagent.Base.{
  ℕ, Bool, true, ◌≡◌, ◌⊎◌, inl, inr, refl, ap, ◌∙◌, List, [], ◌∷◌, ◌++◌, append-nil, arith,
  Bool-cases, ltb, length, All, In, ok, err,
}
use devagent.Protocol.Urpc.{UrpcRequest, UrpcAck, encode_request, read_request}
use devagent.Daemon.Serial.{Port, send_urpc}
use devagent.Daemon.Serial.Sending.{send_urpc-frames}
use devagent.Firmware.{Agent, Reaction, Read, run_command, answer_request, on_read, urpc_rx_task}
use devagent.Firmware.Commands.{Executes, run_command-Executes}
use devagent.Firmware.Answers.{
  IsRepeat, IsRepeat-cases, answer_request-repeat, answer_request-new, process_frame-read,
  process_frame-refused, read_request-encoded,
}

-- What the read brings is no request: it is damaged, cut short or empty.
pub record IsRefused (read : Read) : Type 0 where
  pub refusal : UrpcAck
  pub refused : read_request read.bytes ≡ err refusal

pub record Unmoved (agent : Agent) (reaction : Reaction) : Type 0 where
  pub same_agent : reaction.0 ≡ agent
  pub no_level : reaction.1 ≡ []

-- What a request and its retries do together: nothing while no frame arrives; nothing if the request
-- has the number of the last one that was answered; else what the request asks for, once.
pub data Once (req : UrpcRequest) (agent : Agent) (reads : List Read) (reaction : Reaction)
    : Type 0 where
  nothing_arrived : All IsRefused reads → Unmoved agent reaction → Once req agent reads reaction
  repeated : IsRepeat req agent → Unmoved agent reaction → Once req agent reads reaction
  executed :
      (status : ℕ)
      → ¬ IsRepeat req agent
      → IsRepeat req reaction.0
      → Executes req status reaction.1
      → Once req agent reads reaction

-- A read of the request or of none.
abbrev Brings : UrpcRequest → Read → Type 0
Brings req read = (read_request read.bytes ≡ ok req) ⊎ IsRefused read

refused-Unmoved :
    (read : Read) (agent : Agent) → IsRefused read → Unmoved agent (on_read read agent)
unfolding on_read
refused-Unmoved read agent refused = elim (Bool-cases (ltb 0 (length read.bytes))) [
  | inr empty ↦ rw (on_read, empty) (record { same_agent = refl; no_level = refl })
  | inl some_bytes ↦
      rw
        (
          on_read,
          some_bytes,
          process_frame-refused read.queue_depth read.bytes refused.refusal agent refused.refused,
        )
        (record { same_agent = refl; no_level = refl })
]

read_is_long :
    (bytes : List ℕ) (req : UrpcRequest) → read_request bytes ≡ ok req → ltb 0 (length bytes) ≡ true
unfolding read_request
read_is_long [] req read = absurd cc
read_is_long (byte ∷ bytes) req read = ground arith

on_read-read :
    (read : Read) (req : UrpcRequest) (agent : Agent)
    → read_request read.bytes ≡ ok req
    → on_read read agent ≡ answer_request read.queue_depth req agent
unfolding on_read
on_read-read read req agent h =
    rw (on_read, read_is_long read.bytes req h)
      (process_frame-read read.queue_depth read.bytes req agent h)

repeat-Unmoved :
    (read : Read) (req : UrpcRequest) (agent : Agent)
    → IsRepeat req agent
    → Brings req read
    → Unmoved agent (on_read read agent)
repeat-Unmoved read req agent repeat (inr refused) = refused-Unmoved read agent refused
repeat-Unmoved read req agent repeat (inl brought) =
    rw
      (on_read-read read req agent brought, answer_request-repeat read.queue_depth req agent repeat)
      (record { same_agent = refl; no_level = refl })

-- A read that leaves the agent as it was, before others.
after-Unmoved :
    (read : Read) (reads : List Read) (agent : Agent)
    → Unmoved agent (on_read read agent)
    → ((urpc_rx_task (read ∷ reads) agent).0 ≡ (urpc_rx_task reads agent).0)
      × ((urpc_rx_task (read ∷ reads) agent).1 ≡ (urpc_rx_task reads agent).1)
unfolding urpc_rx_task
after-Unmoved read reads agent unmoved = (
  ap (λ a. (urpc_rx_task reads a).0) unmoved.same_agent,
  rw (unmoved.no_level, unmoved.same_agent) refl,
)

repeats-Unmoved :
    (reads : List Read) (req : UrpcRequest) (agent : Agent)
    → IsRepeat req agent
    → All (Brings req) reads
    → Unmoved agent (urpc_rx_task reads agent)
repeats-Unmoved [] req agent repeat brought =
    unfold urpc_rx_task in record { same_agent = refl; no_level = refl }
repeats-Unmoved (read ∷ reads) req agent repeat (first, others) =
    let (to, levels) =
      after-Unmoved read reads agent (repeat-Unmoved read req agent repeat first) in
    let rest = repeats-Unmoved reads req agent repeat others in
    record { same_agent = to ∙ rest.same_agent; no_level = levels ∙ rest.no_level }

-- The first read of a request that is new: the later ones are repeats.
first-Once :
    (read : Read) (reads : List Read) (req : UrpcRequest) (agent : Agent)
    → ¬ IsRepeat req agent
    → read_request read.bytes ≡ ok req
    → All (Brings req) reads
    → Once req agent (read ∷ reads) (urpc_rx_task (read ∷ reads) agent)
unfolding urpc_rx_task
first-Once read reads req agent new brought others =
    let first =
      on_read-read read req agent brought ∙ answer_request-new read.queue_depth req agent new in
    let agent' = (on_read read agent).0 in
    let repeat : IsRepeat req agent' = rw (first) (record { answered = refl; same_seq = refl }) in
    let rest = repeats-Unmoved reads req agent' repeat others in
    let levels : (on_read read agent).1 ++ (urpc_rx_task reads agent').1 ≡ (run_command req).1 =
      rw (rest.no_level, first) (append-nil _) in
    executed (run_command req).0 new (rw (rest.same_agent) repeat)
      (rw (levels) (run_command-Executes req))

later-Unmoved :
    {agent : Agent} {later reaction : Reaction}
    → reaction.0 ≡ later.0
    → reaction.1 ≡ later.1
    → Unmoved agent later
    → Unmoved agent reaction
later-Unmoved to levels unmoved = record {
  same_agent = to ∙ unmoved.same_agent;
  no_level = levels ∙ unmoved.no_level;
}

-- A read that is refused makes no difference.
later-Once :
    {req : UrpcRequest} {agent : Agent} {read : Read} {reads : List Read}
    {later reaction : Reaction}
    → IsRefused read
    → reaction.0 ≡ later.0
    → reaction.1 ≡ later.1
    → Once req agent reads later
    → Once req agent (read ∷ reads) reaction
later-Once refused to levels (nothing_arrived none_read unmoved) =
    nothing_arrived (refused, none_read) (later-Unmoved to levels unmoved)
later-Once refused to levels (repeated repeat unmoved) =
    repeated repeat (later-Unmoved to levels unmoved)
later-Once refused to levels (executed status new repeat executes) =
    executed status new (rw (to) repeat) (rw (levels) executes)

reads-Once :
    (reads : List Read) (req : UrpcRequest) (agent : Agent)
    → All (Brings req) reads
    → Once req agent reads (urpc_rx_task reads agent)
reads-Once [] req agent brought =
    unfold urpc_rx_task in nothing_arrived tt (record { same_agent = refl; no_level = refl })
reads-Once (read ∷ reads) req agent (inr refused, others) =
    let (to, levels) = after-Unmoved read reads agent (refused-Unmoved read agent refused) in
    later-Once refused to levels (reads-Once reads req agent others)
reads-Once (read ∷ reads) req agent (inl brought, others) = elim (IsRepeat-cases req agent) [
  | inl repeat ↦
      repeated repeat (repeats-Unmoved (read ∷ reads) req agent repeat (inl brought, others))
  | inr new ↦ first-Once read reads req agent new brought others
]

All-In : {A : Type 0} (Holds : A → Type 0) (a : A) (xs : List A) → All Holds xs → In a xs → Holds a
All-In Holds a [] all at = absurd at
All-In Holds a (x ∷ xs) (holds, all) (inl same) = subst Holds same holds
All-In Holds a (x ∷ xs) (holds, all) (inr at) = All-In Holds a xs all at

frames-Brings :
    (req : UrpcRequest) (frames : List (List ℕ)) (reads : List Read)
    → All (λ frame. encode_request req ≡ ok frame) frames
    → All (λ read. In read.bytes frames ⊎ IsRefused read) reads
    → All (Brings req) reads
frames-Brings req frames [] encoded arrive = tt
frames-Brings req frames (read ∷ reads) encoded (inr refused, arrive) =
    (inr refused, frames-Brings req frames reads encoded arrive)
frames-Brings req frames (read ∷ reads) encoded (inl at, arrive) =
    let made = All-In (λ frame. encode_request req ≡ ok frame) read.bytes frames encoded at in
    (inl (read_request-encoded req read.bytes made), frames-Brings req frames reads encoded arrive)

-- However often `SendURPC` sends a request and however it ends: if every read of the firmware brings
-- one of the frames that were written, or bytes that the firmware refuses, then the request is executed
-- once, if any frame arrives and its number is not that of the last request that was answered; it is
-- not executed otherwise, and nothing else happens at the pins.
pub send_urpc-Once :
    (cancelled writes : ℕ → Bool) (retry : ℕ) (req : UrpcRequest) (port : Port) (agent : Agent)
    (reads : List Read)
    → All
        (λ read. In read.bytes (send_urpc cancelled writes retry req port).1 ⊎ IsRefused read)
        reads
    → Once req agent reads (urpc_rx_task reads agent)
send_urpc-Once cancelled writes retry req port agent reads arrive =
    let encoded = (send_urpc-frames cancelled writes retry req port).1 in
    reads-Once reads req agent (frames-Brings req _ reads encoded arrive)
