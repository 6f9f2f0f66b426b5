-- ===== src/Codec/Invariant.antt =====
-- What the table of the waiting requests holds, through any history of a codec.
use arigo.Base.{
  ℕ, ◌+◌, ◌^◌, ◌<◌, ◌≤◌, ◌≡◌, ◌≢◌, refl, sym, ap, ◌∙◌, subst, String, Option, none, some, List, [],
  ◌∷◌, arith, Option-cases, Bool-cases, inl, inr, ◌==◌, if◌then◌else◌, length,
}
use arigo.Base.Map
use arigo.Base.Map.{Map, map_laws}
use arigo.Json.{Json, GoError}
use arigo.Codec.{
  Codec, Frame, Request, Response, Outcome, done, panic, new_json_codec, read_header,
  write_response, encode,
}
use arigo.Codec.Pending.{Files, nothing, filed, read_header-Files}
use arigo.Codec.Answers.{
  Action, reads, writes, codec_of, codec_step, codec_run, codec_run-cons, done-injective,
}

-- Every number that waits was handed out, and has an id that is not null.
pub record IsWellFormed (c : Codec) : Type 0 where
  pub waits :
      (k : ℕ) (id : Option Json)
      → Map.get k c.pending ≡ some id
      → (0 < k) × (k ≤ c.seq) × (id ≢ none)

new_json_codec-IsWellFormed : (incoming : List Frame) → IsWellFormed (new_json_codec incoming)
unfolding Map.get Map.empty
new_json_codec-IsWellFormed incoming = record { waits = λ k id e. cc }

Files-IsWellFormed :
    (c c' : Codec) (req : Request)
    → c.seq + 1 < 2 ^ 64
    → Files c c' req
    → IsWellFormed c
    → IsWellFormed c' × (c'.seq ≤ c.seq + 1)
Files-IsWellFormed c c' req room (nothing p s) h =
    (record { waits = λ k id e. rw s (h.waits k id (ap (Map.get k) (sym p) ∙ e)) }, omega arith)
Files-IsWellFormed c c' req room (filed id s p q) h = (
  record {
    waits = λ k i e.
        go k i (sym (Map.get-put c'.seq k (some id) c.pending) ∙ ap (Map.get k) (sym p) ∙ e);
  },
  omega arith,
)
  where
    go :
        (k : ℕ) (i : Option Json)
        → (if c'.seq == k then some (some id) else Map.get k c.pending) ≡ some i
        → (0 < k) × (k ≤ c'.seq) × (i ≢ none)
    go k i e = elim (Bool-cases (c'.seq == k)) [
      | inl same ↦ let at : c'.seq ≡ k = ground arith in (omega arith, omega arith, ground arith)
      | inr other ↦ let (low, high, known) = h.waits k i (ground arith) in (low, omega arith, known)
    ]

encode-IsWellFormed :
    (c : Codec) (j : Json) (io : Option GoError)
    → IsWellFormed c
    → IsWellFormed (encode c j io).0 × ((encode c j io).0.seq ≡ c.seq)
unfolding encode
encode-IsWellFormed c j none h = (record { waits = h.waits }, refl)
encode-IsWellFormed c j (some e) h = (h, refl)

delete-IsWellFormed :
    (n : ℕ) (c : Codec)
    → IsWellFormed c
    → IsWellFormed (record c { pending = Map.delete n c.pending })
delete-IsWellFormed n c h = record {
  waits = λ k id e. go k id (sym (Map.get-delete n k c.pending) ∙ e);
}
  where
    go :
        (k : ℕ) (id : Option Json)
        → (if n == k then none else Map.get k c.pending) ≡ some id
        → (0 < k) × (k ≤ c.seq) × (id ≢ none)
    go k id e = elim (Bool-cases (n == k)) [
      | inl same ↦ ground arith
      | inr other ↦ h.waits k id (ground arith)
    ]

write-IsWellFormed :
    (c : Codec) (r : Response) (x : Json) (io : Option GoError)
    → IsWellFormed c
    → IsWellFormed (write_response c r x io).0 × ((write_response c r x io).0.seq ≡ c.seq)
unfolding write_response
write-IsWellFormed c r x io h = elim (Option-cases (Map.get r.seq c.pending)) [
  | inl e ↦ rw (e, write_response) (h, refl)
  | inr (b, e) ↦ rw (e, write_response) (encode-IsWellFormed _ _ io (delete-IsWellFormed r.seq c h))
]

module _ (sprint : Json → String) where
  step-IsWellFormed :
      (c d : Codec) (a : Action)
      → c.seq + 1 < 2 ^ 64
      → IsWellFormed c
      → codec_step sprint c a ≡ done d
      → IsWellFormed d × (d.seq ≤ c.seq + 1)
  unfolding codec_step
  step-IsWellFormed c d (reads req resp) room h e = go (read_header sprint c req resp) refl e
    where
      go :
          (o : Outcome (Codec × Request × Response × Option GoError))
          → read_header sprint c req resp ≡ o
          → codec_of sprint o ≡ done d
          → IsWellFormed d × (d.seq ≤ c.seq + 1)
      go (done (d', req', resp', err)) q r =
          subst (λ x. IsWellFormed x × (x.seq ≤ c.seq + 1)) (done-injective r)
            (Files-IsWellFormed c d' req' room
              (read_header-Files sprint c req resp d' req' resp' err q) h)
      go panic q r = cc
  step-IsWellFormed c d (writes r x io) room h e =
      let f = write-IsWellFormed c r x io h in
      subst (λ x. IsWellFormed x × (x.seq ≤ c.seq + 1)) (done-injective e) (f.0, omega (arith, f.1))

  run-IsWellFormed :
      (c c' : Codec) (as' : List Action)
      → c.seq + length as' < 2 ^ 64
      → IsWellFormed c
      → codec_run sprint c as' ≡ done c'
      → IsWellFormed c'
  unfolding codec_run
  run-IsWellFormed c c' [] room h e = subst IsWellFormed (done-injective e) h
  run-IsWellFormed c c' (a ∷ as') room h e =
      let (d, q, r) = codec_run-cons sprint c c' a as' e in
      let f = step-IsWellFormed c d a (omega arith) h q in
      run-IsWellFormed d c' as' (omega (arith, f.1)) f.0 r

  -- After any calls of ReadHeader and WriteResponse on a new codec, fewer than 2^64 and none of
  -- them a panic, every number that waits for a response is one that was handed out, and the id
  -- that is kept for it is not null, whatever was read and whatever writes failed.
  pub codec_run-IsWellFormed :
      (incoming : List Frame) (as' : List Action) (c' : Codec)
      → length as' < 2 ^ 64
      → codec_run sprint (new_json_codec incoming) as' ≡ done c'
      → IsWellFormed c'
  codec_run-IsWellFormed incoming as' c' room e =
      run-IsWellFormed (new_json_codec incoming) c' as' (omega arith)
        (new_json_codec-IsWellFormed incoming) e
