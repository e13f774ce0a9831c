-- ===== src/Network/HttpClient/Orderly.antt =====
-- How the requests of client/src/network/TorHttpClient.ts end.
use tor_e2ee_messenger.Common.{
  ℕ, ◌≡◌, refl, ap, sym, subst, ◌∙◌, All, Bool, true, false, Option, none, some, List, [], ◌∷◌,
  ◌++◌, Text, length, to_lower, is_empty, leb, if◌then◌else◌, ◌⊎◌, inl, inr,
}
use tor_e2ee_messenger.Common.Result.{Result, ok, err}
use tor_e2ee_messenger.Platform.{Platform}
use tor_e2ee_messenger.Network.HttpClient.{
  HttpResponse, HttpError, timed_out, socket_failed, split_first, content_length, crlf,
  parse_http_response,
}
use tor_e2ee_messenger.Network.HttpClient.Request.{
  Request, fresh_request, first_settled, settle, RequestEvent, data_chunk, ended, failed,
  timer_fired, resolved_or_thrown, complete, check_length, check_complete, on_data, on_end,
  on_error, on_timer, request_step, request_steps,
}

abbrev pub Settled : Request → Type 0
Settled q = (r : Result HttpError HttpResponse) × (q.settled ≡ some r)

-- Whether the other side closes the connection before any data came; the text is the data so far.
unfoldable pub closes_empty : List RequestEvent → Text → Bool
closes_empty [] raw = false
closes_empty (data_chunk chunk ∷ events) raw = closes_empty events (raw ++ chunk)
closes_empty (ended ∷ events) raw =
    let later = closes_empty events raw in if is_empty raw then true else later
closes_empty (failed ∷ events) raw = closes_empty events raw
closes_empty (timer_fired ∷ events) raw = closes_empty events raw

first_settled-Settled :
    (o : Option (Result HttpError HttpResponse)) (r : Result HttpError HttpResponse)
    → (x : Result HttpError HttpResponse) × (first_settled o r ≡ some x)
first_settled-Settled none r = (r, refl)
first_settled-Settled (some x) r = (x, refl)

-- The request is settled, or its timer runs, or a callback threw.
abbrev Live : Request → Type 0
Live q = Settled q ⊎ ((q.timer_set ≡ true) ⊎ (q.is_faulted ≡ true))

chosen-Live : (b : Bool) (x y : Request) → Live x → Live y → Live (if b then x else y)
chosen-Live true x y h k = h
chosen-Live false x y h k = k

chosen-raw :
    (b : Bool) (x y : Request) (t : Text)
    → x.raw_data ≡ t
    → y.raw_data ≡ t
    → (if b then x else y).raw_data ≡ t
chosen-raw true x y t h k = h
chosen-raw false x y t h k = k

resolved-raw :
    (r : Result HttpError HttpResponse) (q : Request)
    → (resolved_or_thrown r q).raw_data ≡ q.raw_data
resolved-raw (ok r) q = refl
resolved-raw (err e) q = refl

-- The promise is settled, or a callback threw.
abbrev pub Answered : Request → Type 0
Answered q = Settled q ⊎ (q.is_faulted ≡ true)

if_Answered :
    (b : Bool) (x y : Request)
    → Answered x
    → (b ≡ false → Answered y)
    → Answered (if b then x else y)
if_Answered true x y h k = h
if_Answered false x y h k = k refl

other_Live : (b : Bool) (x y : Request) → b ≡ false → Live y → Live (if b then x else y)
other_Live true x y e h = absurd cc
other_Live false x y e h = h

-- An end, or a firing of the timer.
unfoldable pub is_quiet : RequestEvent → Bool
is_quiet (data_chunk _) = false
is_quiet ended = true
is_quiet failed = false
is_quiet timer_fired = true

abbrev hung : Request
hung = record fresh_request { timer_set = false }

both_false : (b x : Bool) → (if b then true else x) ≡ false → (b ≡ false) × (x ≡ false)
both_false true x h = absurd cc
both_false false x h = (refl, h)

module _ (p : Platform) where
  resolved-Live : (r : Result HttpError HttpResponse) (q : Request) → Live (resolved_or_thrown r q)
  resolved-Live (ok response) q = inl (first_settled-Settled q.settled (ok response))
  resolved-Live (err e) q = inr (inr refl)

  check_length-Live :
      (n : Option ℕ) (body : Text) (q : Request) → Live q → Live (check_length p n body q)
  unfolding check_length complete
  check_length-Live none body q h = h
  check_length-Live (some n) body q h =
      chosen-Live (leb n (length (p.utf8_encode body))) (complete p n q) q
        (resolved-Live (parse_http_response p q.raw_data (some n))
          (record q { timer_set = false; is_destroyed = true }))
        h

  check_length-raw :
      (n : Option ℕ) (body : Text) (q : Request) → (check_length p n body q).raw_data ≡ q.raw_data
  unfolding check_length complete
  check_length-raw none body q = refl
  check_length-raw (some n) body q =
      chosen-raw (leb n (length (p.utf8_encode body))) (complete p n q) q q.raw_data
        (resolved-raw (parse_http_response p q.raw_data (some n))
          (record q { timer_set = false; is_destroyed = true }))
        refl

  check_complete-raw :
      (o : Option (Text × Text)) (q : Request) → (check_complete p o q).raw_data ≡ q.raw_data
  unfolding check_complete
  check_complete-raw none q = refl
  check_complete-raw (some parts) q = check_length-raw (content_length (to_lower parts.0)) parts.1 q

  on_data-raw : (chunk : Text) (q : Request) → (on_data p chunk q).raw_data ≡ q.raw_data ++ chunk
  unfolding on_data
  on_data-raw chunk q =
      let grown = record q { raw_data = q.raw_data ++ chunk } in
      check_complete-raw (split_first (crlf ++ crlf) grown.raw_data) grown

  check_complete-Live :
      (o : Option (Text × Text)) (q : Request) → Live q → Live (check_complete p o q)
  unfolding check_complete
  check_complete-Live none q h = h
  check_complete-Live (some parts) q h =
      check_length-Live (content_length (to_lower parts.0)) parts.1 q h

  on_data-Live : (chunk : Text) (q : Request) → Live q → Live (on_data p chunk q)
  unfolding on_data
  on_data-Live chunk q h =
      let grown = record q { raw_data = q.raw_data ++ chunk } in
      check_complete-Live (split_first (crlf ++ crlf) grown.raw_data) grown h

  on_timer-Live : (q : Request) → Live q → Live (on_timer p q)
  unfolding on_timer
  on_timer-Live q h =
      chosen-Live q.timer_set
        (settle (err timed_out) (record q { timer_set = false; is_destroyed = true })) q
        (inl (first_settled-Settled q.settled (err timed_out))) h

  on_timer-raw : (q : Request) → (on_timer p q).raw_data ≡ q.raw_data
  unfolding on_timer
  on_timer-raw q =
      chosen-raw q.timer_set
        (settle (err timed_out) (record q { timer_set = false; is_destroyed = true })) q q.raw_data
        refl refl

  on_end-raw : (q : Request) → (on_end p q).raw_data ≡ q.raw_data
  unfolding on_end
  on_end-raw q =
      let quiet = record q { timer_set = false } in
      chosen-raw (is_empty q.raw_data) quiet (settle (parse_http_response p q.raw_data none) quiet)
        q.raw_data refl refl

  on_end-Live : (q : Request) → is_empty q.raw_data ≡ false → Live (on_end p q)
  unfolding on_end
  on_end-Live q e =
      let quiet = record q { timer_set = false } in
      other_Live (is_empty q.raw_data) quiet (settle (parse_http_response p q.raw_data none) quiet)
        e (inl (first_settled-Settled q.settled (parse_http_response p q.raw_data none)))

  request_steps-Live :
      (events : List RequestEvent) (q : Request)
      → Live q
      → closes_empty events q.raw_data ≡ false
      → Live (request_steps p events q)
  unfolding request_steps closes_empty
  request_steps-Live [] q h open_data = h
  request_steps-Live (data_chunk chunk ∷ events) q h e =
      request_steps-Live events (on_data p chunk q) (on_data-Live chunk q h)
        (subst (λ t. closes_empty events t ≡ false) (sym (on_data-raw chunk q)) e)
  request_steps-Live (ended ∷ events) q h e =
      let (there, later) = both_false (is_empty q.raw_data) (closes_empty events q.raw_data) e in
      request_steps-Live events (on_end p q) (on_end-Live q there)
        (subst (λ t. closes_empty events t ≡ false) (sym (on_end-raw q)) later)
  request_steps-Live (failed ∷ events) q h e =
      request_steps-Live events (on_error p q)
        (unfold on_error in inl (first_settled-Settled q.settled (err socket_failed)))
        (unfold on_error in e)
  request_steps-Live (timer_fired ∷ events) q h e =
      request_steps-Live events (on_timer p q) (on_timer-Live q h)
        (subst (λ t. closes_empty events t ≡ false) (sym (on_timer-raw q)) e)

  fired-Settled : (q : Request) → Live q → Answered (on_timer p q)
  unfolding on_timer
  fired-Settled q h =
      if_Answered q.timer_set
        (settle (err timed_out) (record q { timer_set = false; is_destroyed = true })) q
        (inl (first_settled-Settled q.settled (err timed_out)))
        (λ off. elim h [
          | inl s ↦ inl s
          | inr (inl on) ↦ absurd (let bad : true ≡ false = sym on ∙ off in cc)
          | inr (inr f) ↦ inr f
        ])

  request_steps-append :
      (events : List RequestEvent) (e : RequestEvent) (q : Request)
      → request_steps p (events ++ e ∷ []) q ≡ request_step p e (request_steps p events q)
  unfolding request_steps
  request_steps-append [] e q = refl
  request_steps-append (d ∷ events) e q = request_steps-append events e (request_step p d q)

  -- Whatever chunks, errors and ends a request meets, unless the connection ends before any data came: once
  -- its time is up, the promise is settled, or a callback has thrown.
  pub request_steps-Settled :
      (events : List RequestEvent)
      → closes_empty events [] ≡ false
      → (let q = request_steps p (events ++ timer_fired ∷ []) fresh_request in Answered q)
  unfolding request_step
  request_steps-Settled events e =
      subst Answered (sym (request_steps-append events timer_fired fresh_request)) (
        fired-Settled (request_steps p events fresh_request)
          (request_steps-Live events fresh_request (inr (inl refl)) e))

  stays_hung :
      (events : List RequestEvent)
      → All (λ e. is_quiet e ≡ true) events
      → request_steps p events hung ≡ hung
  unfolding request_steps request_step on_end on_timer is_quiet
  stays_hung [] h = refl
  stays_hung (data_chunk chunk ∷ events) (first, rest) = absurd cc
  stays_hung (ended ∷ events) (first, rest) = stays_hung events rest
  stays_hung (failed ∷ events) (first, rest) = absurd cc
  stays_hung (timer_fired ∷ events) (first, rest) = stays_hung events rest

  -- When the connection ends before any data came, the timer is cleared and the promise is not settled: no
  -- later end and no firing of the timer settles it.
  pub request_steps-hangs :
      (events : List RequestEvent)
      → All (λ e. is_quiet e ≡ true) events
      → (request_steps p (ended ∷ events) fresh_request).settled ≡ none
  unfolding request_steps request_step on_end
  request_steps-hangs events h = ap (λ q. q.settled) (stays_hung events h)
