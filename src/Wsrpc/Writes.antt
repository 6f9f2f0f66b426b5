-- ===== src/Wsrpc/Writes.antt =====
-- Write and Close.
use arigo.Base.{
  ℕ, suc, ◌<◌, ◌≡◌, ◌≢◌, refl, ap, ◌∙◌, Bool, true, false, none, some, List, [], ◌∷◌, ◌++◌, arith,
  length, take,
}
use arigo.Json.{GoError, closed_pipe}
use arigo.Wsrpc.{WebSocket, ReadWriteCloser, closed, read, write, write_loop, after_write, close}

module _ {W R V : Type 0} (s : WebSocket W R V) where
  -- What io.Writer documents: a call without an error takes all its bytes. `written` is what the
  -- connection has taken so far.
  pub record IsWriter (written : W → List ℕ) (v : V) : Type 0 where
    pub takes : (p : List ℕ) (w : W) → (s.write v p w).1 ≡ none → (s.write v p w).0 ≡ length p
    pub appends :
        (p : List ℕ) (w : W) → written (s.write v p w).2 ≡ written w ++ take (s.write v p w).0 p

  take-length : (p : List ℕ) → take (length p) p ≡ p
  take-length [] = refl
  take-length (x ∷ p) = ap (λ q. x ∷ q) (take-length p)

  write-found :
      (fuel : ℕ) (rwc : ReadWriteCloser R V) (meanwhile : Bool) (v : V) (p : List ℕ) (w : W)
      → rwc.ws ≡ true
      → rwc.w ≡ some v
      → write s fuel rwc meanwhile p w ≡ after_write s rwc v p (write_loop s fuel v p 0 w)
  unfolding write
  write-found fuel rwc meanwhile v p w there found = ground arith

  loop-takes :
      (fuel : ℕ) (v : V) (p : List ℕ) (w : W)
      → 0 < length p
      → (s.write v p w).1 ≡ none
      → (s.write v p w).0 ≡ length p
      → write_loop s (suc (suc fuel)) v p 0 w ≡ some (length p, (s.write v p w).2)
  unfolding write_loop
  loop-takes fuel v p w some_ quiet all = ground arith

  loop-breaks :
      (fuel : ℕ) (v : V) (p : List ℕ) (w : W) (e : GoError)
      → 0 < length p
      → (s.write v p w).1 ≡ some e
      → write_loop s (suc (suc fuel)) v p 0 w ≡ some ((s.write v p w).0, (s.write v p w).2)
  unfolding write_loop
  loop-breaks fuel v p w e some_ failing = ground arith

  after-all :
      (rwc : ReadWriteCloser R V) (v : V) (p : List ℕ) (w : W)
      → after_write s rwc v p (some (length p, w))
        ≡ some (record rwc { w = none }, length p, (s.close_writer v w).0, (s.close_writer v w).1)
  unfolding after_write
  after-all rwc v p w = ground arith

  after-short :
      (rwc : ReadWriteCloser R V) (v : V) (p : List ℕ) (n : ℕ) (w : W)
      → n ≢ length p
      → after_write s rwc v p (some (n, w)) ≡ some (rwc, n, none, w)
  unfolding after_write
  after-short rwc v p n w short = ground arith

  -- On an open message, where the writer takes a buffer that is not empty, Write gives the count of its bytes, the
  -- connection has exactly them behind what it had, the message is ended, and the error is that of
  -- its end.
  pub write_all :
      (written : W → List ℕ) (v : V) (fuel : ℕ) (rwc : ReadWriteCloser R V) (meanwhile : Bool)
      (p : List ℕ) (w : W)
      → IsWriter written v
      → rwc.ws ≡ true
      → rwc.w ≡ some v
      → 0 < length p
      → (s.write v p w).1 ≡ none
      → (w₁ : W) × (written w₁ ≡ written w ++ p)
        × (write s (suc (suc fuel)) rwc meanwhile p w
            ≡ some (
              record rwc { w = none },
              length p,
              (s.close_writer v w₁).0,
              (s.close_writer v w₁).1,
            ))
  write_all written v fuel rwc meanwhile p w h there found full quiet =
      let all = h.takes p w quiet in
      (
        (s.write v p w).2,
        h.appends p w ∙ ap (λ n. written w ++ take n p) all ∙ ap (◌++◌ (written w)) (take-length p),
        write-found (suc (suc fuel)) rwc meanwhile v p w there found
            ∙ ap (after_write s rwc v p) (loop-takes fuel v p w full quiet all)
            ∙ after-all rwc v p (s.write v p w).2,
      )

  -- An error of the writer is lost: on an open message, where the writer fails with any error before
  -- the end of a buffer that is not empty, Write returns the short count with no error, and the
  -- message stays open.
  write_loses_error :
      (v : V) (fuel : ℕ) (rwc : ReadWriteCloser R V) (meanwhile : Bool) (p : List ℕ) (w : W)
      (e : GoError)
      → rwc.ws ≡ true
      → rwc.w ≡ some v
      → 0 < length p
      → (s.write v p w).1 ≡ some e
      → (s.write v p w).0 ≢ length p
      → write s (suc (suc fuel)) rwc meanwhile p w
        ≡ some (rwc, (s.write v p w).0, none, (s.write v p w).2)
  write_loses_error v fuel rwc meanwhile p w e there found full failing short =
      write-found (suc (suc fuel)) rwc meanwhile v p w there found
      ∙ ap (after_write s rwc v p) (loop-breaks fuel v p w e full failing)
      ∙ after-short rwc v p _ _ short

  close-closed : (rwc : ReadWriteCloser R V) (w : W) → (close s rwc w).0 ≡ closed
  unfolding close
  close-closed rwc w = ground arith

  -- With no open message, Close closes the connection.
  pub close-idle :
      (rwc : ReadWriteCloser R V) (w : W)
      → rwc.ws ≡ true
      → rwc.w ≡ none
      → close s rwc w ≡ (closed, (s.close_conn w).0, (s.close_conn w).1)
  unfolding close
  close-idle rwc w there idle = ground arith

  pub close-closed_again : (w : W) → close s closed w ≡ (closed, none, w)
  unfolding close
  close-closed_again w = refl

  pub read-closed :
      (fuel len : ℕ) (meanwhile : Bool) (w : W)
      → read s fuel closed meanwhile len w ≡ some (closed, [], some closed_pipe, w)
  unfolding read
  read-closed fuel len meanwhile w = refl

  pub write-closed :
      (fuel : ℕ) (meanwhile : Bool) (p : List ℕ) (w : W)
      → write s fuel closed meanwhile p w ≡ some (closed, 0, some closed_pipe, w)
  unfolding write
  write-closed fuel meanwhile p w = refl

  -- After a Close, whatever it returned, Read and Write give io.ErrClosedPipe, a second Close gives
  -- no error, and none of the three reaches the connection.
  pub after_close :
      (rwc : ReadWriteCloser R V) (w w' : W) (fuel len : ℕ) (meanwhile : Bool) (p : List ℕ)
      → (read s fuel (close s rwc w).0 meanwhile len w' ≡ some (closed, [], some closed_pipe, w'))
        × (write s fuel (close s rwc w).0 meanwhile p w' ≡ some (closed, 0, some closed_pipe, w'))
        × (close s (close s rwc w).0 w' ≡ (closed, none, w'))
  after_close rwc w w' fuel len meanwhile p =
      rw (close-closed rwc w)
        (read-closed fuel len meanwhile w', write-closed fuel meanwhile p w', close-closed_again w')

  -- Where the open message cannot be ended, Close gives that error at once and leaves the
  -- connection open, and no later Close reaches it.
  close_leaks :
      (rwc : ReadWriteCloser R V) (v : V) (w w' : W) (e : GoError)
      → rwc.w ≡ some v
      → (s.close_writer v w).0 ≡ some e
      → (close s rwc w ≡ (closed, some e, (s.close_writer v w).1))
        × (close s (close s rwc w).0 w' ≡ (closed, none, w'))
  unfolding close
  close_leaks rwc v w w' e found failing = (ground arith, (after_close rwc w w' 0 0 false []).2)

  -- The errors of a writer. On an open message, where the writer fails with any error before the end
  -- of a buffer that is not empty, Write returns the short count with no error, and the message
  -- stays open; and where the Close of this writer then fails, in whatever world, Close gives that
  -- error at once and leaves the connection open, and no later Close reaches it.
  pub failing_writer :
      (v : V) (fuel : ℕ) (rwc : ReadWriteCloser R V) (meanwhile : Bool) (p : List ℕ) (w w₁ w₂ : W)
      (e e₁ : GoError)
      → rwc.ws ≡ true
      → rwc.w ≡ some v
      → 0 < length p
      → (s.write v p w).1 ≡ some e
      → (s.write v p w).0 ≢ length p
      → (s.close_writer v w₁).0 ≡ some e₁
      → (write s (suc (suc fuel)) rwc meanwhile p w
          ≡ some (rwc, (s.write v p w).0, none, (s.write v p w).2))
        × (close s rwc w₁ ≡ (closed, some e₁, (s.close_writer v w₁).1))
        × (close s (close s rwc w₁).0 w₂ ≡ (closed, none, w₂))
  failing_writer v fuel rwc meanwhile p w w₁ w₂ e e₁ there found full failing short unended =
      let (first, later) = close_leaks rwc v w₁ w₂ e₁ found unended in
      (write_loses_error v fuel rwc meanwhile p w e there found full failing short, first, later)
