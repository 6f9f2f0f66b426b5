-- ===== src/Codec/Answers.antt =====
-- Histories of ReadHeader and WriteResponse on one codec: each request is answered once.
use arigo.Base.{
  ℕ, ◌+◌, ◌^◌, ◌<◌, ◌≤◌, ◌≡◌, ◌⊎◌, refl, subst, String, Option, none, some, List, [], ◌∷◌, arith,
  inl, inr, Option-cases, length,
}
use arigo.Base.Map
use arigo.Base.Map.{Map, map_laws}
use arigo.Json.{Json, GoError, invalid_sequence}
use arigo.Codec.{
  Codec, Request, Response, Outcome, done, panic, read_header, write_response, encode,
}
use arigo.Codec.Pending.{Files, nothing, filed, read_header-Files}

pub done-injective : {A : Type 0} {a b : A} → done a ≡ done b → a ≡ b
done-injective e = cc

pub data Action : Type 0 where
  reads : Request → Response → Action
  writes : Response → Json → Option GoError → Action

module _ (sprint : Json → String) where
  abbrev pub codec_of : Outcome (Codec × Request × Response × Option GoError) → Outcome Codec
  codec_of (done (c, req, resp, e)) = done c
  codec_of panic = panic

  unfoldable pub codec_step : Codec → Action → Outcome Codec
  codec_step c (reads req resp) = codec_of (read_header sprint c req resp)
  codec_step c (writes r x io) = done (write_response c r x io).0

  unfoldable pub codec_run : Codec → List Action → Outcome Codec
  codec_run c [] = done c
  codec_run c (a ∷ as') = elim (codec_step c a) [ done c' ↦ codec_run c' as' | panic ↦ panic ]

  -- A number that was handed out and is not pending any more.
  record IsSpent (k : ℕ) (c : Codec) : Type 0 where
    gone : Map.get k c.pending ≡ none
    used : k ≤ c.seq

  Files-IsSpent :
      (k : ℕ) (c c' : Codec) (req : Request)
      → c.seq + 1 < 2 ^ 64
      → Files c c' req
      → IsSpent k c
      → IsSpent k c' × (c'.seq ≤ c.seq + 1)
  Files-IsSpent k c c' req room (nothing p s) h =
      (record { gone = rw p h.gone; used = omega (arith, h.used) }, omega arith)
  Files-IsSpent k c c' req room (filed id s p q) h = (
    record {
      gone = rw p (rw Map.get-put (ground (arith, h.gone, h.used)));
      used = omega (arith, h.used);
    },
    omega arith,
  )

  encode-IsSpent :
      (k : ℕ) (c : Codec) (j : Json) (io : Option GoError)
      → IsSpent k c
      → IsSpent k (encode c j io).0 × ((encode c j io).0.seq ≡ c.seq)
  unfolding encode
  encode-IsSpent k c j none h = (record { gone = h.gone; used = h.used }, refl)
  encode-IsSpent k c j (some e) h = (h, refl)

  -- One WriteResponse spends its own number, and leaves a spent one spent.
  write-IsSpent :
      (k : ℕ) (c : Codec) (r : Response) (x : Json) (io : Option GoError)
      → k ≤ c.seq
      → (r.seq ≡ k) ⊎ (Map.get k c.pending ≡ none)
      → IsSpent k (write_response c r x io).0 × ((write_response c r x io).0.seq ≡ c.seq)
  unfolding write_response
  write-IsSpent k c r x io u h = elim (Option-cases (Map.get r.seq c.pending)) [
    | inl e ↦ rw (e, write_response) (record { gone = ground arith; used = u }, refl)
    | inr (b, e) ↦
        let spent : IsSpent k (record c { pending = Map.delete r.seq c.pending }) = record {
          gone = rw Map.get-delete (ground arith);
          used = u;
        } in
        rw (e, write_response) (encode-IsSpent k _ _ io spent)
  ]

  step-IsSpent :
      (k : ℕ) (c d : Codec) (a : Action)
      → c.seq + 1 < 2 ^ 64
      → IsSpent k c
      → codec_step c a ≡ done d
      → IsSpent k d × (d.seq ≤ c.seq + 1)
  unfolding codec_step
  step-IsSpent k c d (reads req resp) room h e = go (read_header sprint c req resp) refl e
    where
      go :
          (o : Outcome (Codec × Request × Response × Option GoError))
          → read_header sprint c req resp ≡ o
          → codec_of o ≡ done d
          → IsSpent k d × (d.seq ≤ c.seq + 1)
      go (done (d', req', resp', err)) q r =
          subst (λ x. IsSpent k x × (x.seq ≤ c.seq + 1)) (done-injective r)
            (Files-IsSpent k c d' req' room
              (read_header-Files sprint c req resp d' req' resp' err q) h)
      go panic q r = cc
  step-IsSpent k c d (writes r x io) room h e =
      let f = write-IsSpent k c r x io h.used (inr h.gone) in
      subst (λ x. IsSpent k x × (x.seq ≤ c.seq + 1)) (done-injective e) (f.0, omega (arith, f.1))

  pub codec_run-cons :
      (c c' : Codec) (a : Action) (as' : List Action)
      → codec_run c (a ∷ as') ≡ done c'
      → (d : Codec) × (codec_step c a ≡ done d) × (codec_run d as' ≡ done c')
  unfolding codec_run
  codec_run-cons c c' a as' e = go (codec_step c a) refl e
    where
      go :
          (o : Outcome Codec)
          → codec_step c a ≡ o
          → (elim o [ done d ↦ codec_run d as' | panic ↦ panic ]) ≡ done c'
          → (d : Codec) × (codec_step c a ≡ done d) × (codec_run d as' ≡ done c')
      go (done d) q r = (d, q, r)
      go panic q r = cc

  run-IsSpent :
      (k : ℕ) (c c' : Codec) (as' : List Action)
      → c.seq + length as' < 2 ^ 64
      → IsSpent k c
      → codec_run c as' ≡ done c'
      → IsSpent k c'
  unfolding codec_run
  run-IsSpent k c c' [] room h e = subst (IsSpent k) (done-injective e) h
  run-IsSpent k c c' (a ∷ as') room h e =
      let (d, q, r) = codec_run-cons c c' a as' e in
      let f = step-IsSpent k c d a (omega arith) h q in
      run-IsSpent k d c' as' (omega (arith, f.1)) f.0 r

  -- Once WriteResponse was called for a number that ReadHeader has handed out, whether the write
  -- went through or failed, every later call for the number is refused and changes nothing, after
  -- any calls in between, as long as fewer than 2^64 requests come in.
  pub answered_once :
      (c c' : Codec) (r r' : Response) (x x' : Json) (io io' : Option GoError)
      (between : List Action)
      → r.seq ≤ c.seq
      → c.seq + length between < 2 ^ 64
      → codec_run (write_response c r x io).0 between ≡ done c'
      → r'.seq ≡ r.seq
      → write_response c' r' x' io' ≡ (c', some invalid_sequence)
  unfolding write_response
  answered_once c c' r r' x x' io io' between u room e q =
      let f = write-IsSpent r.seq c r x io u (inl refl) in
      let spent = run-IsSpent r.seq _ c' between (omega arith) f.0 e in
      let missing : Map.get r'.seq c'.pending ≡ none = rw q spent.gone in
      rw (missing, write_response) refl
