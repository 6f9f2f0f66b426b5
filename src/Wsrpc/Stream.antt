-- ===== src/Wsrpc/Stream.antt =====
-- Many Reads, one after the other, over the messages that the connection has for them.
use mathlib.Core.List.{append_assoc}
use arigo.Base.{
  ℕ, zero, suc, ◌-◌, ◌≡◌, ◌⊎◌, refl, sym, ap, ◌∙◌, Bool, true, false, Option, none, some, List, [],
  ◌∷◌, ◌++◌, arith, inl, inr, Bool-cases, Option-cases, ltb, if◌then◌else◌, length,
}
use arigo.Json.{GoError, eof}
use arigo.Wsrpc.{
  WebSocket, ReadWriteCloser, Opened, opened, failed, read, read_loop, after_read, is_eof,
}
use arigo.Wsrpc.Reads.{IsReader, read_loop-Got, read-found, read-opens}

is_eof-eof : (err : Option GoError) → is_eof err ≡ true → err ≡ some eof
is_eof-eof none h = cc
is_eof-eof (some eof) h = refl
is_eof-eof (some _) h = cc

module _ {W R : Type 0} where
  Next-cases :
      (x : Opened R × W)
      → ((r : R) × (w : W) × (x ≡ (opened r, w))) ⊎ ((e : GoError) × (w : W) × (x ≡ (failed e, w)))
  Next-cases (opened r, w) = inl (r, w, refl)
  Next-cases (failed e, w) = inr (e, w, refl)

module _ {W R V : Type 0} (s : WebSocket W R V) where
  read-fails :
      (fuel len : ℕ) (rwc : ReadWriteCloser R V) (e : GoError) (w w' : W)
      → rwc.ws ≡ true
      → rwc.r ≡ none
      → s.next_reader w ≡ (failed e, w')
      → read s fuel rwc false len w ≡ some (rwc, [], some e, w')
  unfolding read
  read-fails fuel len rwc e w w' there unread next = ground arith

  -- What the connection documents: each reader reads its own message, NextReader opens the one that
  -- comes next, and a failed NextReader takes nothing. `remaining` is what a reader has left of its
  -- message, `later` all bytes of the messages that are not opened yet.
  pub record IsSource (remaining : R → W → List ℕ) (later : W → List ℕ) : Type 0 where
    pub reader : (r : R) → IsReader s (remaining r) r
    pub kept : (r : R) (k : ℕ) (w : W) → later (s.read r k w).2 ≡ later w
    pub opens :
        (r : R) (w w' : W) → s.next_reader w ≡ (opened r, w') → later w ≡ remaining r w' ++ later w'
    pub fails : (e : GoError) (w w' : W) → s.next_reader w ≡ (failed e, w') → later w ≡ later w'

  abbrev then_more :
      List ℕ → Option (ReadWriteCloser R V × List ℕ × W) → Option (ReadWriteCloser R V × List ℕ × W)
  then_more got none = none
  then_more got (some (rwc, more, w)) = some (rwc, got ++ more, w)

  -- Reads with buffers of these lengths, whatever their errors, and all the bytes that they got.
  unfoldable pub reads :
      List ℕ → ReadWriteCloser R V → W → Option (ReadWriteCloser R V × List ℕ × W)
  reads [] rwc w = some (rwc, [], w)
  reads (len ∷ lens) rwc w = elim (read s (suc len) rwc false len w) [
    | none ↦ none
    | some (rwc', got, err, w') ↦ then_more got (reads lens rwc' w')
  ]

  module _ (remaining : R → W → List ℕ) (later : W → List ℕ) where
    abbrev open_message : Option R → W → List ℕ
    open_message none w = []
    open_message (some r) w = remaining r w

    -- All bytes that are still to come, of the open message and of the ones behind it.
    abbrev pub ahead : ReadWriteCloser R V → W → List ℕ
    ahead rwc w = open_message rwc.r w ++ later w

    module _ (h : IsSource remaining later) where
      read_loop-later :
          (r : R) (fuel len : ℕ) (got : List ℕ) (w : W) (got' : List ℕ) (err : Option GoError)
          (w' : W)
          → read_loop s fuel r len got w ≡ some (got', err, w')
          → later w' ≡ later w
      unfolding read_loop
      read_loop-later r zero len got w got' err w' e = cc
      read_loop-later r (suc fuel) len got w got' err w' e =
          let k : ℕ = len - length got in
          let kept = h.kept r k w in
          let again =
            read_loop-later r fuel len (got ++ (s.read r k w).0) (s.read r k w).2 got' err w' in
          elim (Bool-cases (ltb (length got) len)) [
            | inr full ↦ ground arith
            | inl more ↦ elim (Option-cases (s.read r k w).1) [
              | inl quiet ↦ again (ground arith) ∙ kept
              | inr (x, failing) ↦ ground (arith, kept, failing)
            ]
          ]

      forgets :
          (rwc : ReadWriteCloser R V) (r : R) (err : Option GoError) (w' : W)
          → rwc.r ≡ some r
          → (err ≡ some eof → remaining r w' ≡ [])
          → open_message (if is_eof err then record rwc { r = none } else rwc).r w' ≡ remaining r w'
      forgets rwc r err w' found ends = elim (Bool-cases (is_eof err)) [
        | inl e ↦ rw e (sym (ends (is_eof-eof err e)))
        | inr e ↦ rw (e, found) refl
      ]

      -- What one Read does to the bytes that are still to come.
      abbrev Advances : ℕ → ReadWriteCloser R V → W → Type 0
      Advances len rwc w =
          (rwc' : ReadWriteCloser R V) × (got : List ℕ) × (err : Option GoError) × (w' : W) × (read
              s (suc len) rwc false len w
            ≡ some (rwc', got, err, w'))
          × (ahead rwc w ≡ got ++ ahead rwc' w')
          × (rwc'.ws ≡ true)

      keeps_ws :
          (b : Bool) (rwc : ReadWriteCloser R V)
          → (if b then record rwc { r = none } else rwc).ws ≡ rwc.ws
      keeps_ws true rwc = refl
      keeps_ws false rwc = refl

      read_found-Advances :
          (len : ℕ) (rwc : ReadWriteCloser R V) (r : R) (w : W)
          → rwc.ws ≡ true
          → rwc.r ≡ some r
          → Advances len rwc w
      unfolding after_read
      read_found-Advances len rwc r w there found =
          let (got, err, w', e, g) =
            read_loop-Got s (remaining r) r (h.reader r) (suc len) len [] w (omega arith)
              (omega arith) in
          (
            if is_eof err then record rwc { r = none } else rwc,
            got,
            err,
            w',
            read-found s (suc len) len rwc false r w there found ∙ ap (after_read s rwc) e,
            ap (λ o. open_message o w ++ later w) found
                ∙ ap (λ l. l ++ later w) g.in_order
                ∙ append_assoc got (remaining r w') (later w)
                ∙ ap (λ l. got ++ (remaining r w' ++ l))
                    (sym (read_loop-later r (suc len) len [] w got err w' e))
                ∙ ap (λ l. got ++ (l ++ later w')) (sym (forgets rwc r err w' found g.at_end)),
            keeps_ws (is_eof err) rwc ∙ there,
          )

      read-Advances :
          (len : ℕ) (rwc : ReadWriteCloser R V) (w : W) → rwc.ws ≡ true → Advances len rwc w
      read-Advances len rwc w there = elim (Option-cases rwc.r) [
        | inr (r, found) ↦ read_found-Advances len rwc r w there found
        | inl unread ↦ elim (Next-cases (s.next_reader w)) [
          | inl (r, w', next) ↦
              let (rwc', got, err, w'', e, split, there') =
                read_found-Advances len (record rwc { r = some r }) r w' there refl in
              (
                rwc',
                got,
                err,
                w'',
                read-opens s (suc len) len rwc r w w' there unread next ∙ e,
                ap (λ o. open_message o w ++ later w) unread ∙ h.opens r w w' next ∙ split,
                there',
              )
          | inr (e, w', next) ↦ (
            rwc,
            [],
            some e,
            w',
            read-fails (suc len) len rwc e w w' there unread next,
            ap (λ o. open_message o w ++ later w) unread
                ∙ h.fails e w w' next
                ∙ ap (λ o. open_message o w' ++ later w') (sym unread),
            there,
          )
        ]
      ]

      -- On an open connection, Reads with buffers of any lengths, one after the other and across the
      -- ends of the messages, whatever errors they give, all return; what they got, followed by
      -- what is then still to come, is what was to come before: no byte is lost, doubled or moved.
      pub reads_in_order :
          (lens : List ℕ) (rwc : ReadWriteCloser R V) (w : W)
          → rwc.ws ≡ true
          → (rwc' : ReadWriteCloser R V) × (got : List ℕ) × (w' : W) × (reads lens rwc w
              ≡ some (rwc', got, w'))
            × (ahead rwc w ≡ got ++ ahead rwc' w')
      unfolding reads
      reads_in_order [] rwc w there = (rwc, [], w, refl, refl)
      reads_in_order (len ∷ lens) rwc w there =
          let (rwc₁, got, err, w₁, e, split, there₁) = read-Advances len rwc w there in
          let (rwc', more, w', e', split') = reads_in_order lens rwc₁ w₁ there₁ in
          (
            rwc',
            got ++ more,
            w',
            rw (e, reads) (rw e' refl),
            split ∙ ap (◌++◌ got) split' ∙ sym (append_assoc got more (ahead rwc' w')),
          )
