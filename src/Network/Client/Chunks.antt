-- ===== src/Network/Client/Chunks.antt =====
-- The client of client/src/network/TorWebSocketClient.ts reads one stream: how the bytes are cut into
-- chunks by the socket makes no difference.
use tor_e2ee_messenger.Common.{
  ℕ, zero, suc, ◌≤◌, ◌<◌, ◌≡◌, refl, ap, sym, ◌∙◌, true, false, none, some, [], ◌++◌, Bytes, length,
  arith, Option-cases, Bool-cases, inl, inr,
}
use mathlib.Core.List.{append_assoc}
use tor_e2ee_messenger.Network.Frame.{Frame, read_frame}
use tor_e2ee_messenger.Network.Client.{
  Client, Wire, process_frame, drain, drain_all, handle_raw_data, on_data,
}
use tor_e2ee_messenger.Network.Frame.Stable.{extend, read_frame-append}
use tor_e2ee_messenger.Network.Client.Drain.{
  read_frame-shorter, process_frame-Shrinks, process_frame-Sound,
}
use tor_e2ee_messenger.Network.Client.Behind.{
  live, behind, process_frame-behind, behind-live, behind-dead, is_live,
}

module _ (wire : Wire) where
  drain-stops : (fuel : ℕ) (c : Client) → read_frame c.buffer ≡ none → drain wire fuel c ≡ c
  unfolding drain
  drain-stops zero c e = refl
  drain-stops (suc fuel) c e = rw (e, drain) refl

  drain-goes :
      (fuel : ℕ) (c : Client) (f : Frame)
      → read_frame c.buffer ≡ some f
      → drain wire (suc fuel) c
        ≡ drain wire fuel (process_frame wire f.opcode f.payload (record c { buffer = f.rest }))
  unfolding drain
  drain-goes fuel c f e = rw (e, drain) refl

  next-shorter :
      (c : Client) (f : Frame)
      → read_frame c.buffer ≡ some f
      → length (process_frame wire f.opcode f.payload (record c { buffer = f.rest })).buffer
        < length c.buffer
  next-shorter c f e = omega (
    arith,
    read_frame-shorter c.buffer f e,
    process_frame-Shrinks wire f.opcode f.payload (record c { buffer = f.rest }),
  )

  no_fuel : (c : Client) → length c.buffer ≤ 0 → read_frame c.buffer ≡ none
  no_fuel c h = elim (Option-cases (read_frame c.buffer)) [
    | inl e ↦ e
    | inr (f, e) ↦ absurd (omega (arith, read_frame-shorter c.buffer f e))
  ]

  drain-rests :
      (fuel : ℕ) (c : Client)
      → length c.buffer ≤ fuel
      → read_frame (drain wire fuel c).buffer ≡ none
  drain-rests zero c h = unfold drain in no_fuel c h
  drain-rests (suc fuel) c h = elim (Option-cases (read_frame c.buffer)) [
    | inl e ↦ rw (drain-stops (suc fuel) c e) e
    | inr (f, e) ↦
        rw (drain-goes fuel c f e) (drain-rests fuel _ (omega (arith, next-shorter c f e)))
  ]

  -- More fuel than bytes makes no difference.
  drain-fuel :
      (m n : ℕ) (c : Client)
      → length c.buffer ≤ m
      → length c.buffer ≤ n
      → drain wire m c ≡ drain wire n c
  drain-fuel zero n c h k = drain-stops zero c (no_fuel c h) ∙ sym (drain-stops n c (no_fuel c h))
  drain-fuel (suc m) zero c h k =
      drain-stops (suc m) c (no_fuel c k) ∙ sym (drain-stops zero c (no_fuel c k))
  drain-fuel (suc m) (suc n) c h k = elim (Option-cases (read_frame c.buffer)) [
    | inl e ↦ drain-stops (suc m) c e ∙ sym (drain-stops (suc n) c e)
    | inr (f, e) ↦
        drain-goes m c f e
        ∙ drain-fuel m n _ (omega (arith, next-shorter c f e)) (omega (arith, next-shorter c f e))
        ∙ sym (drain-goes n c f e)
  ]

  at_rest :
      (c : Client)
      → c.socket ≡ false
      → (c.socket ≡ false → c.buffer ≡ [])
      → read_frame c.buffer ≡ none
  unfolding read_frame
  at_rest c h s = rw (s h) refl

  all-stops : (c : Client) → read_frame c.buffer ≡ none → drain_all wire c ≡ c
  unfolding drain_all
  all-stops c e = drain-stops _ c e

  all-goes :
      (c : Client) (f : Frame)
      → read_frame c.buffer ≡ some f
      → drain_all wire c
        ≡ drain_all wire (process_frame wire f.opcode f.payload (record c { buffer = f.rest }))
  unfolding drain_all
  all-goes c f e =
      let n = length c.buffer in
      drain-fuel n (suc n) c (omega arith) (omega arith)
      ∙ drain-goes n c f e
      ∙ drain-fuel n _ _ (omega (arith, next-shorter c f e)) (omega arith)

  Cut : Bytes → Bytes → Client → Type 0
  Cut more b c =
      drain_all wire (live (b ++ more) c) ≡ drain_all wire (behind more (drain_all wire (live b c)))

  Cut-any :
      (more : Bytes) (d : Client)
      → Cut more d.buffer d
      → (d.socket ≡ false → d.buffer ≡ [])
      → drain_all wire (behind more d) ≡ drain_all wire (behind more (drain_all wire d))
  unfolding Cut
  Cut-any more d h s = elim (Bool-cases d.socket) [
    | inl up ↦
        ap (drain_all wire) (behind-live more d up)
        ∙ h
        ∙ sym (ap (λ c. drain_all wire (behind more (drain_all wire c))) (is_live d up))
    | inr gone ↦ sym (ap (λ c. drain_all wire (behind more c)) (all-stops d (at_rest d gone s)))
  ]

  Cut-stops : (more b : Bytes) (c : Client) → read_frame b ≡ none → Cut more b c
  unfolding Cut
  Cut-stops more b c e = sym (
      ap (λ d. drain_all wire (behind more d)) (all-stops (live b c) e)
      ∙ ap (drain_all wire) (behind-live more (live b c) refl))

  Cut-goes :
      (more b : Bytes) (c : Client) (f : Frame)
      → read_frame b ≡ some f
      → ((d : Client) → length d.buffer < length b → Cut more d.buffer d)
      → Cut more b c
  unfolding Cut
  Cut-goes more b c f e later =
      let next = process_frame wire f.opcode f.payload (live f.rest c) in
      all-goes (live (b ++ more) c) (extend more f) (read_frame-append b more f e)
      ∙ ap (drain_all wire) (process_frame-behind wire more f.rest f.opcode f.payload c)
      ∙ Cut-any more next (unfold Cut in later next (next-shorter (live b c) f e))
          (process_frame-Sound wire f.opcode f.payload (live f.rest c) (λ bad. cc))
      ∙ sym (ap (λ d. drain_all wire (behind more d)) (all-goes (live b c) f e))

  -- The loop on a longer buffer is the loop on its first part, and then on what comes behind.
  Cut-all : (more : Bytes) (n : ℕ) (b : Bytes) (c : Client) → length b ≤ n → Cut more b c
  Cut-all more zero b c h = Cut-stops more b c (no_fuel (live b c) h)
  Cut-all more (suc n) b c h = elim (Option-cases (read_frame b)) [
    | inl e ↦ Cut-stops more b c e
    | inr (f, e) ↦ Cut-goes more b c f e (λ d shorter. Cut-all more n d.buffer d (omega arith))
  ]

  Cut-eq :
      (more b : Bytes) (c : Client)
      → drain_all wire (live (b ++ more) c)
        ≡ drain_all wire (behind more (drain_all wire (live b c)))
  Cut-eq more b c = unfold Cut in Cut-all more (length b) b c (omega arith)

  on_data-up :
      (b : Bytes) (c : Client)
      → c.socket ≡ true
      → on_data wire b c ≡ drain_all wire (live (c.buffer ++ b) c)
  unfolding on_data handle_raw_data
  on_data-up b c up = ap (on_data wire b) (is_live c up)

  on_data-dead : (b : Bytes) (c : Client) → c.socket ≡ false → on_data wire b c ≡ c
  unfolding on_data
  on_data-dead b c gone = rw gone refl

  on_data-rested :
      (b : Bytes) (c : Client)
      → read_frame c.buffer ≡ none
      → on_data wire b c ≡ drain_all wire (behind b c)
  on_data-rested b c e = elim (Bool-cases c.socket) [
    | inl up ↦ on_data-up b c up ∙ sym (ap (drain_all wire) (behind-live b c up))
    | inr gone ↦
        on_data-dead b c gone ∙ sym (ap (drain_all wire) (behind-dead b c gone) ∙ all-stops c e)
  ]

  -- After a chunk, no whole frame is left in the buffer.
  drain_all-rests : (c : Client) → read_frame (drain_all wire c).buffer ≡ none
  unfolding drain_all
  drain_all-rests c = drain-rests _ c (omega arith)

  -- Two chunks one after the other leave the client in the state in which the two as one chunk leave
  -- it: the same frames handled in the same order, the same bytes kept, the same replies and callbacks.
  -- This also holds where a frame in the first chunk closes the socket.
  pub on_data-append :
      (first second : Bytes) (c : Client)
      → on_data wire second (on_data wire first c) ≡ on_data wire (first ++ second) c
  on_data-append first second c = elim (Bool-cases c.socket) [
    | inl up ↦
        let d = drain_all wire (live (c.buffer ++ first) c) in
        ap (on_data wire second) (on_data-up first c up)
        ∙ on_data-rested second d (drain_all-rests _)
        ∙ sym (Cut-eq second (c.buffer ++ first) c)
        ∙ ap (λ b. drain_all wire (live b c)) (append_assoc c.buffer first second)
        ∙ sym (on_data-up (first ++ second) c up)
    | inr gone ↦
        ap (on_data wire second) (on_data-dead first c gone)
        ∙ on_data-dead second c gone
        ∙ sym (on_data-dead (first ++ second) c gone)
  ]

  -- A chunk is handled to its end: afterwards the buffer holds no whole frame, whatever it held before.
  pub handle_raw_data-rests :
      (chunk : Bytes) (c : Client) → read_frame (handle_raw_data wire chunk c).buffer ≡ none
  unfolding handle_raw_data
  handle_raw_data-rests chunk c = drain_all-rests _
