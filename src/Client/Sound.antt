-- ===== src/Client/Sound.antt =====
-- A stream is kept sound by the calls of its sending side: one outcome, no panic, an answer to
-- come.
use vanguard_go.Client.{Calling, ClientError, ClientStream, Response, coded, nil_dereference}
use vanguard_go.Client.Stream.{respond_error}
use vanguard_go.Prelude.{
  Bool, List, Option, [], arith, false, inl, inr, is_some, none, refl, some, true, ℕ, ◌==◌, ◌∷◌,
  ◌≡◌, ◌≢◌, ◌⊎◌, ◌||◌,
}
use vanguard_go.Prelude.Branches.{if_holds}
use vanguard_go.Status.{ConnectError}

-- The published fields: `responded`, `ready_closes`, `response`, `dispatch` and `raw_body`.
pub data Outcome {C E : Type 0}
    : Bool → ℕ → Option (Response C) → Option (ClientError E) → Option ℕ → Type 0 where
  pending : Outcome false 0 none none none
  replied : (resp : Response C) → Outcome true 1 (some resp) none (some resp.body)
  refused :
      (e : ClientError E) (raw_body : Option ℕ)
      → e ≢ nil_dereference
      → Outcome true 1 none (some e) raw_body

-- Nothing is published.
pub record IsPending {C E : Type 0} (responded : Bool) (ready_closes : ℕ)
    (response : Option (Response C)) (dispatch : Option (ClientError E)) (raw_body : Option ℕ)
    : Type 0 where
  pub no_reply : responded ≡ false
  pub not_ready : ready_closes ≡ 0
  pub no_response : response ≡ none
  pub no_dispatch : dispatch ≡ none
  pub no_body : raw_body ≡ none

pub Outcome-cases :
    {C E : Type 0} {b : Bool} {n : ℕ} {r : Option (Response C)} {d : Option (ClientError E)}
    {w : Option ℕ}
    → Outcome b n r d w
    → IsPending b n r d w ⊎ (b ≡ true)
Outcome-cases pending = inl (record {
  no_reply = refl;
  not_ready = refl;
  no_response = refl;
  no_dispatch = refl;
  no_body = refl;
})
Outcome-cases (replied resp) = inr refl
Outcome-cases (refused e raw_body h) = inr refl

abbrev pub is_member : List ℕ → ℕ → Bool
is_member [] b = false
is_member (c ∷ bodies) b = c == b || is_member bodies b

abbrev pub NoPanic : {E : Type 0} → Option (ClientError E) → Type 0
NoPanic none = Unit
NoPanic (some e) = e ≢ nil_dereference

module _ {M C E : Type 0} (call : Calling M C E) where
  abbrev pub Stream : Type 0
  Stream = ClientStream C E

  abbrev pub HasOutcome : Stream → Type 0
  HasOutcome s = Outcome s.responded s.ready_closes s.response s.dispatch s.raw_body

  -- The outcome is published, or httpClient.Do has yet to return.
  abbrev pub IsAnswerable : Stream → Type 0
  IsAnswerable s = (s.responded ≡ true) ⊎ (is_some s.in_flight ≡ true)

  -- A body that was opened is closed, or is the stream's, which is open.
  abbrev pub Released : Stream → Type 0
  Released s =
      (body : ℕ)
      → is_member s.opened body ≡ true
      → (is_member s.body_closes body ≡ true) ⊎ ((s.closed ≡ false) × (s.raw_body ≡ some body))

  abbrev pub Core : Stream → Type 0
  Core s =
      HasOutcome s
      × (call.rule ≡ none → s.req_url ≡ none)
      × Released s
      × (s.pipe ≡ true → IsAnswerable s)

  -- A call of the sending side.
  pub record Kept (send_closed : Bool) (r : Stream × Option (ClientError E)) : Type 0 where
    pub core : Core r.0
    pub same_side : r.0.send_closed ≡ send_closed
    pub no_panic : NoPanic r.1

  pub coded-NoPanic : (e : ConnectError E) → ◌≢◌ {A = ClientError E} (coded e) nil_dereference
  coded-NoPanic e h = cc

  abbrev pub kept :
      (s : Stream) {e : Option (ClientError E)} → Core s → NoPanic e → Kept s.send_closed (s, e)
  kept s core no_panic = record { core = core; same_side = refl; no_panic = no_panic }

  pub respond_error-Core :
      (e : ClientError E) (s : Stream) → e ≢ nil_dereference → Core s → Core (respond_error e s)
  unfolding respond_error
  respond_error-Core e s h (o, u, l, p) =
      if_holds Core s.responded (λ _. (o, u, l, p))
        (λ b. elim (Outcome-cases o) [
          | inr d ↦ absurd (ground (arith, b, d))
          | inl w ↦ (rw (w.not_ready, w.no_response) (refused e s.raw_body h), u, l, λ _. inl refl)
        ])

  pub respond_error-responded :
      (e : ClientError E) (s : Stream) → (respond_error e s).responded ≡ true
  unfolding respond_error
  respond_error-responded e s =
      if_holds (λ (x : Stream). x.responded ≡ true) s.responded (λ b. b) (λ b. refl)

  pub respond_error-send_closed :
      (e : ClientError E) (s : Stream) → (respond_error e s).send_closed ≡ s.send_closed
  unfolding respond_error
  respond_error-send_closed e s =
      if_holds (λ (x : Stream). x.send_closed ≡ s.send_closed) s.responded (λ _. refl) (λ _. refl)
