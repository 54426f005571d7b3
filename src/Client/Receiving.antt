-- ===== src/Client/Receiving.antt =====
-- Receive keeps a stream sound and raises no panic.
use vanguard_go.Client.{Calling, ClientError, ClientStream, Response, coded, eof, nil_dereference}
use vanguard_go.Client.Http.{read_error}
use vanguard_go.Client.Kept.{finish-IsSound}
use vanguard_go.Client.Calls.{
  Awaited, Reading, Received, arrived, await_response, blocked, decode_reply, error_reply, failed,
  got, receive, receive_chunk, receive_response, unavailable,
}
use vanguard_go.Client.Sides.{IsSound}
use vanguard_go.Client.Sound.{Outcome, pending, refused, replied}
use vanguard_go.Prelude.{
  codes, Bool, Bytes, Option, ap, arith, none, not, refl, some, true, ℕ, ◌/◌, ◌==◌, ◌∙◌, ◌≡◌, ◌≢◌,
}
use vanguard_go.Prelude.Branches.{if_holds, option_holds, result_holds}
use vanguard_go.Server.{first_value}
use vanguard_go.Receive.{Chunk, broken, chunk, last_chunk}

pub awaited_holds {ℓ κ} :
    {E : Type 0} {B : Type ℓ} (P : B → Type κ) (w : Awaited E) {x y : B} {fail : ClientError E → B}
    → (w ≡ blocked → P x)
    → (w ≡ arrived → P y)
    → ((e : ClientError E) → w ≡ unavailable e → P (fail e))
    → P (elim w [ blocked ↦ x | unavailable e ↦ fail e | arrived ↦ y ])
awaited_holds P blocked f g h = f refl
awaited_holds P arrived f g h = g refl
awaited_holds P (unavailable e) f g h = h e refl

chunk_holds {ℓ κ} :
    {E : Type 0} {B : Type ℓ} (P : B → Type κ) (c : Chunk E) {x : B} {next : Bytes → B}
    {fail : E → B}
    → P x
    → ((bytes : Bytes) → P (next bytes))
    → ((e : E) → P (fail e))
    → P (elim c [ last_chunk ↦ x | broken e ↦ fail e | chunk bytes ↦ next bytes ])
chunk_holds P last_chunk f g h = f
chunk_holds P (chunk bytes) f g h = g bytes
chunk_holds P (broken e) f g h = h e

unavailable-injective :
    {E : Type 0} {d e : ClientError E} → ◌≡◌ {A = Awaited E} (unavailable d) (unavailable e) → d ≡ e
unavailable-injective h = cc

option_absurd : {A : Type 0} {o : Option A} {a : A} → o ≡ some a → o ≡ none → ⊥
option_absurd h k = cc

module _ {M C E : Type 0} (call : Calling M C E) where
  abbrev pub Stream : Type 0
  Stream = ClientStream C E

  -- The result of a receiving call is no panic.
  abbrev NoCrash : Received M E → Type 0
  NoCrash r = r ≢ failed nil_dereference

  abbrev ReceivesSoundly : Stream × Received M E → Type 0
  ReceivesSoundly r = IsSound call r.0 × NoCrash r.1

  failed_coded : (e : _) → NoCrash (failed (coded e))
  failed_coded e h = cc

  failed_eof : NoCrash (failed eof)
  failed_eof h = cc

  got_message : (m : M) → NoCrash (got m)
  got_message m h = cc

  read_error-NoCrash : (e : E) → NoCrash (failed (read_error call e))
  unfolding read_error
  read_error-NoCrash e =
      if_holds (λ x. NoCrash (failed x)) (call.is_too_large e) (λ _. failed_coded _)
        (λ _. failed_coded _)

  error_reply-NoCrash :
      (resp : Response C) (reading : Reading M E) (msg : M)
      → NoCrash (error_reply call resp reading msg)
  unfolding error_reply
  error_reply-NoCrash resp reading msg =
      result_holds NoCrash reading.read_all
        (λ body _. option_holds NoCrash _ (λ _. got_message msg) (λ e _. failed_coded e))
        (λ e _. read_error-NoCrash e)

  decode_reply-NoCrash :
      (resp : Response C) (reading : Reading M E) (msg : M)
      → call.rule ≢ none
      → NoCrash (decode_reply call resp reading msg)
  unfolding decode_reply
  decode_reply-NoCrash resp reading msg ruled =
      option_holds NoCrash call.rule (λ n. absurd (ruled n))
        (λ _ _.
          result_holds NoCrash
            (reading.decode_body (first_value (codes "Content-Type") resp.header) msg)
            (λ m _. got_message m)
            (λ e _.
              if_holds NoCrash (call.is_too_large e) (λ _. read_error-NoCrash e)
                (λ _. failed_coded _)))

  receive_chunk_sound :
      (resp : Response C) (reading : Reading M E) (msg : M) (s : Stream)
      → IsSound call s
      → call.rule ≢ none
      → ReceivesSoundly (receive_chunk call resp reading msg s)
  unfolding receive_chunk
  receive_chunk_sound resp reading msg s h ruled =
      let over = finish-IsSound call resp.body s h in
      chunk_holds ReceivesSoundly reading.next_chunk (over, failed_eof)
        (λ bytes.
          option_holds ReceivesSoundly call.rule (λ n. absurd (ruled n))
            (λ _ _.
              result_holds ReceivesSoundly
                (reading.set_body (first_value (codes "Content-Type") resp.header) bytes msg)
                (λ m _. (h, got_message m)) (λ e _. (h, failed_coded _))))
        (λ e. (over, read_error-NoCrash e))

  receive_response_sound :
      (resp : Response C) (reading : Reading M E) (msg : M) (s : Stream)
      → IsSound call s
      → call.rule ≢ none
      → ReceivesSoundly (receive_response call resp reading msg s)
  unfolding receive_response
  receive_response_sound resp reading msg s h ruled =
      let over = finish-IsSound call resp.body s h in
      if_holds ReceivesSoundly (not (resp.status_code / 100 == 2))
        (λ _. (over, error_reply-NoCrash resp reading msg))
        (λ _.
          if_holds ReceivesSoundly call.server_streams
            (λ _. receive_chunk_sound resp reading msg s h ruled)
            (λ _. (over, decode_reply-NoCrash resp reading msg ruled)))

  -- A published error is no panic, and what is published without an error has a response.
  dispatched :
      {b : Bool} {n : ℕ} {r : Option (Response C)} {d : Option (ClientError E)} {w : Option ℕ}
      → Outcome b n r d w
      → ((e : ClientError E) → d ≡ some e → e ≢ nil_dereference) × (b ≡ true → d ≡ none → r ≢ none)
  dispatched pending = (λ e h. cc, λ h k. absurd (ground (arith, h)))
  dispatched (replied resp) = (λ e h. cc, λ h k x. cc)
  dispatched (refused e raw_body h) = (λ x k p. h (cc), λ h k x. cc)

  await_response-cases :
      (s : Stream)
      → IsSound call s
      → ((e : ClientError E) → await_response call s ≡ unavailable e → e ≢ nil_dereference)
        × (await_response call s ≡ arrived → s.response ≢ none)
  unfolding await_response
  await_response-cases s ((o, u, l, p), a) =
      let P : Awaited E → Type 0 = λ w.
        ((e : ClientError E) → w ≡ unavailable e → e ≢ nil_dereference)
        × (w ≡ arrived → s.response ≢ none) in
      if_holds P s.responded
        (λ b.
          option_holds P s.dispatch (λ n. (λ e k. cc, λ _. (dispatched o).1 b n))
            (λ x k. (λ e m. (dispatched o).0 e (k ∙ ap some (unavailable-injective m)), λ m. cc)))
        (λ b. option_holds P s.context (λ _. (λ e k. cc, λ k. cc)) (λ x _. (λ e m n. cc, λ k. cc)))

  pub receive_sound :
      (reading : Reading M E) (msg : M) (s : Stream)
      → IsSound call s
      → (call.rule ≡ none → s.response ≡ none)
      → ReceivesSoundly (receive call reading msg s)
  unfolding receive
  receive_sound reading msg s h ruleless =
      let (fails, arrives) = await_response-cases s h in
      if_holds ReceivesSoundly s.received (λ _. (h, failed_eof))
        (λ _.
          awaited_holds ReceivesSoundly (await_response call s) (λ _. (h, λ k. cc))
            (λ a.
              option_holds ReceivesSoundly s.response (λ n. absurd (arrives a n))
                (λ resp k.
                  receive_response_sound resp reading msg s h (λ n. option_absurd k (ruleless n))))
            (λ e k. (h, λ n. fails e k (cc))))
