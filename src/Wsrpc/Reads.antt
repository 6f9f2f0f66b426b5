-- ===== src/Wsrpc/Reads.antt =====
-- Read: the messages of the WebSocket as a byte stream that ends where a message ends.
use mathlib.Core.List.{append_assoc}
use arigo.Base.{
  ℕ, zero, suc, ◌-◌, ◌<◌, ◌≤◌, ◌≡◌, refl, sym, ap, ◌∙◌, subst, Bool, true, false, Option, none,
  some, List, [], ◌++◌, arith, inl, inr, Bool-cases, Option-cases, ltb, if◌then◌else◌, length,
  length-append,
}
use arigo.Json.{GoError, eof}
use arigo.Wsrpc.{WebSocket, ReadWriteCloser, opened, read, read_loop, after_read, is_eof}

module _ {W R V : Type 0} (s : WebSocket W R V) where
  pub read-found :
      (fuel len : ℕ) (rwc : ReadWriteCloser R V) (meanwhile : Bool) (r : R) (w : W)
      → rwc.ws ≡ true
      → rwc.r ≡ some r
      → read s fuel rwc meanwhile len w ≡ after_read s rwc (read_loop s fuel r len [] w)
  unfolding read
  read-found fuel len rwc meanwhile r w there found = ground arith

  forget_reader :
      (b : Bool) (rwc : ReadWriteCloser R V) (r : R)
      → rwc.r ≡ some r
      → (if b then record rwc { r = none } else rwc).r ≡ (if b then none else some r)
  forget_reader true rwc r h = refl
  forget_reader false rwc r h = h

  -- What io.Reader documents of a reader of one message, where `remaining` is what is left of the
  -- message: a call gives a first part of it that fits the buffer, it gives something or an error
  -- where the buffer is not empty, and it ends with EOF only behind the last byte.
  pub record IsReader (remaining : W → List ℕ) (r : R) : Type 0 where
    pub splits : (k : ℕ) (w : W) → remaining w ≡ (s.read r k w).0 ++ remaining (s.read r k w).2
    pub fits : (k : ℕ) (w : W) → length (s.read r k w).0 ≤ k
    pub moves : (k : ℕ) (w : W) → 0 < k → (s.read r k w).1 ≡ none → 0 < length (s.read r k w).0
    pub ends : (k : ℕ) (w : W) → (s.read r k w).1 ≡ some eof → remaining (s.read r k w).2 ≡ []

  -- What a finished loop or Read has got.
  pub record Got (remaining : W → List ℕ) (len : ℕ) (before : List ℕ) (got : List ℕ)
      (err : Option GoError) (w' : W) : Type 0 where
    pub in_order : before ≡ got ++ remaining w'
    pub bounded : length got ≤ len
    pub full : err ≡ none → length got ≡ len
    pub at_end : err ≡ some eof → remaining w' ≡ []

  -- A Read returns the next part of the message, and keeps or forgets the reader.
  abbrev pub ReadsOn : (W → List ℕ) → R → ℕ → ℕ → ReadWriteCloser R V → Bool → W → Type 0
  ReadsOn remaining r fuel len rwc meanwhile w =
      (rwc' : ReadWriteCloser R V) × (got : List ℕ) × (err : Option GoError) × (w' : W) × (read s
          fuel rwc meanwhile len w
        ≡ some (rwc', got, err, w'))
      × Got remaining len (remaining w) got err w'
      × (rwc'.r ≡ (if is_eof err then none else some r))

  module _ (remaining : W → List ℕ) (r : R) (h : IsReader remaining r) where
    pub read_loop-Got :
        (fuel len : ℕ) (got : List ℕ) (w : W)
        → len - length got < fuel
        → length got ≤ len
        → (got' : List ℕ) × (err : Option GoError) × (w' : W) × (read_loop s fuel r len got w
            ≡ some (got', err, w'))
          × Got remaining len (got ++ remaining w) got' err w'
    unfolding read_loop
    read_loop-Got zero len got w lt le = elim lt [ ]
    read_loop-Got (suc fuel) len got w lt le =
        let k : ℕ = len - length got in
        let bytes : List ℕ = (s.read r k w).0 in
        let w₁ : W = (s.read r k w).2 in
        let sum = length-append got bytes in
        let regroup : got ++ remaining w ≡ (got ++ bytes) ++ remaining w₁ =
          ap (◌++◌ got) (h.splits k w) ∙ sym (append_assoc got bytes (remaining w₁)) in
        elim (Bool-cases (ltb (length got) len)) [
          | inr full ↦ (
            got,
            none,
            w,
            rw full refl,
            record { in_order = refl; bounded = le; full = λ _. ground arith; at_end = λ q. cc },
          )
          | inl more ↦ elim (Option-cases (s.read r k w).1) [
            | inl quiet ↦
                let grows = h.moves k w (ground arith) quiet in
                let (got', err, w', e, g) =
                  read_loop-Got fuel len (got ++ bytes) w₁ (omega (arith, sum))
                    (omega (arith, sum, h.fits k w)) in
                (
                  got',
                  err,
                  w',
                  rw (more, quiet) e,
                  subst (λ l. Got remaining len l got' err w') (sym regroup) g,
                )
            | inr (e, failing) ↦ (
              got ++ bytes,
              some e,
              w₁,
              rw (more, failing) refl,
              record {
                in_order = regroup;
                bounded = omega (arith, sum, h.fits k w);
                full = λ q. cc;
                at_end = λ q. h.ends k w (failing ∙ q);
              },
            )
          ]
        ]

    -- A Read with a reader at hand and fuel above the length of its buffer returns. What it returns
    -- is the next part of the message, in order and with nothing lost; it is shorter than the buffer
    -- only with an error; the error is EOF only behind the last byte of the message, and exactly
    -- then the reader is forgotten, so that the next Read opens the next message.
    pub read-Got :
        (fuel len : ℕ) (rwc : ReadWriteCloser R V) (meanwhile : Bool) (w : W)
        → len < fuel
        → rwc.ws ≡ true
        → rwc.r ≡ some r
        → ReadsOn remaining r fuel len rwc meanwhile w
    unfolding after_read
    read-Got fuel len rwc meanwhile w room there found =
        let (got, err, w', e, g) = read_loop-Got fuel len [] w (omega arith) (omega arith) in
        (
          if is_eof err then record rwc { r = none } else rwc,
          got,
          err,
          w',
          read-found fuel len rwc meanwhile r w there found ∙ ap (after_read s rwc) e,
          g,
          forget_reader (is_eof err) rwc r found,
        )

  -- With no reader at hand, Read takes the next message's and goes on as with it at hand.
  pub read-opens :
      (fuel len : ℕ) (rwc : ReadWriteCloser R V) (r : R) (w w' : W)
      → rwc.ws ≡ true
      → rwc.r ≡ none
      → s.next_reader w ≡ (opened r, w')
      → read s fuel rwc false len w ≡ read s fuel (record rwc { r = some r }) false len w'
  unfolding read
  read-opens fuel len rwc r w w' there unread next = ground arith
