-- ===== src/Daemon/Invoke/Http/Limits.antt =====
-- The rate limit of `/invoke`, over any sequence of requests.
use devagent.Base.{
  ℕ, ◌≡◌, inl, inr, refl, ap, ◌∙◌, ℤ, String, Bool, true, not, List, [], ◌∷◌, Bool-cases,
  Option-cases, ◌==◌,
}
use devagent.Daemon.RateLimiter.{RateLimiter, allow as allow_call, allow_all}
use devagent.Daemon.Registry.{get_device}
use devagent.Daemon.Invoke.{Platform, InvokeMessage}
use devagent.Daemon.Invoke.Http.{
  Method, get, post, other_method, Request, Response, http_error, json, Server, Handled,
  find_capability, check_token, dispatch, parse_body, handle_body, handle_http_invoke,
}

-- A request at its instant and its second.
abbrev pub Arrival : Type 0
Arrival = Request × ℕ × ℤ

-- The calls that the posts of a sequence make on the limiter.
abbrev pub calls_of : List Arrival → List (String × ℕ)
calls_of [] = []
calls_of ((request, instant, now) ∷ arrivals) = elim request.method [
  | post ↦ (request.remote_addr, instant) ∷ calls_of arrivals
  | get ↦ calls_of arrivals
  | other_method ↦ calls_of arrivals
]

module _ (platform : Platform) where
  abbrev pub passes : Response platform → Bool
  passes (http_error code) = not (code == 429)
  passes (json code reply) = not (code == 429)

  -- For each post of the sequence, whether the answer is another one than "429 Too Many Requests".
  abbrev pub post_verdicts : Server platform → List Arrival → List Bool
  post_verdicts server [] = []
  post_verdicts server ((request, instant, now) ∷ arrivals) =
      let handled = handle_http_invoke platform server request instant now in
      elim request.method [
        | post ↦ passes handled.response ∷ post_verdicts handled.server arrivals
        | get ↦ post_verdicts handled.server arrivals
        | other_method ↦ post_verdicts handled.server arrivals
      ]

  -- Behind the limiter: another answer than 429, and the same limiter.
  record Passing (limiter : RateLimiter) (handled : Handled platform) : Type 0 where
    passing : passes handled.response ≡ true
    kept : handled.server.rate_limiter ≡ limiter

  dispatch-Passing :
      (server : Server platform) (msg : InvokeMessage)
      → Passing server.rate_limiter (dispatch platform server msg)
  unfolding dispatch
  dispatch-Passing server msg = elim (Option-cases (get_device msg.device_id server.registry)) [
    | inl missing ↦ rw (dispatch, missing) (record { passing = refl; kept = refl })
    | inr (device, found) ↦
        elim (Option-cases (find_capability msg.capability device.config.capabilities)) [
          | inl missing ↦ rw (dispatch, found, missing) (record { passing = refl; kept = refl })
          | inr (cap, declared) ↦
              rw (dispatch, found, declared) (record { passing = refl; kept = refl })
        ]
  ]

  handle_body-Passing :
      (server : Server platform) (request : Request) (now : ℤ)
      → Passing server.rate_limiter (handle_body platform server request now)
  unfolding handle_body
  handle_body-Passing server request now = elim (Option-cases (parse_body platform request.body)) [
    | inl broken ↦ rw (handle_body, broken) (record { passing = refl; kept = refl })
    | inr (msg, parsed) ↦
        elim (Option-cases
          (check_token platform server.token_secret request.authorization now msg)) [
            | inr (reply, refused) ↦
                rw (handle_body, parsed, refused) (record { passing = refl; kept = refl })
            | inl passed ↦ rw (handle_body, parsed, passed) (dispatch-Passing server msg)
          ]
  ]

  post_step :
      (server : Server platform) (request : Request) (instant : ℕ) (now : ℤ)
      → request.method ≡ post
      → (passes (handle_http_invoke platform server request instant now).response
          ≡ (allow_call server.rate_limiter request.remote_addr instant).1)
        × ((handle_http_invoke platform server request instant now).server.rate_limiter
            ≡ (allow_call server.rate_limiter request.remote_addr instant).0)
  unfolding handle_http_invoke
  post_step server request instant now m =
      let call = allow_call server.rate_limiter request.remote_addr instant in
      let limited : Server platform = record server { rate_limiter = call.0 } in
      elim (Bool-cases call.1) [
        | inr refused ↦ rw (handle_http_invoke, m, refused) (refl, refl)
        | inl within ↦
            let behind = handle_body-Passing limited request now in
            rw (handle_http_invoke, m, within) (behind.passing, behind.kept)
      ]

  step_by :
      (method : Method) (server : Server platform) (request : Request) (instant : ℕ) (now : ℤ)
      (arrivals : List Arrival)
      → request.method ≡ method
      → ((later : Server platform)
          → post_verdicts later arrivals ≡ allow_all later.rate_limiter (calls_of arrivals))
      → post_verdicts server ((request, instant, now) ∷ arrivals)
        ≡ allow_all server.rate_limiter (calls_of ((request, instant, now) ∷ arrivals))
  unfolding handle_http_invoke allow_all
  step_by get server request instant now arrivals m rest =
      let same : (handle_http_invoke platform server request instant now).server ≡ server =
        rw (handle_http_invoke, m) refl in
      rw (m, same) (rest server)
  step_by other_method server request instant now arrivals m rest =
      let same : (handle_http_invoke platform server request instant now).server ≡ server =
        rw (handle_http_invoke, m) refl in
      rw (m, same) (rest server)
  step_by post server request instant now arrivals m rest =
      let handled = handle_http_invoke platform server request instant now in
      let (verdict, limiter) = post_step server request instant now m in
      rw (m, verdict)
        (ap (λ verdicts. (allow_call server.rate_limiter request.remote_addr instant).1 ∷ verdicts)
          (rest handled.server ∙ ap (λ l. allow_all l (calls_of arrivals)) limiter))

  -- For any requests from any clients, in any order: a post is answered with 429 exactly if the
  -- limiter refuses the call with its address and instant, in the sequence of the calls that the posts
  -- make; other requests do not touch the limiter.
  pub post_verdicts-eq-allow_all :
      (server : Server platform) (arrivals : List Arrival)
      → post_verdicts server arrivals ≡ allow_all server.rate_limiter (calls_of arrivals)
  unfolding allow_all
  post_verdicts-eq-allow_all server [] = refl
  post_verdicts-eq-allow_all server ((request, instant, now) ∷ arrivals) =
      step_by request.method server request instant now arrivals refl
        (λ later. post_verdicts-eq-allow_all later arrivals)
