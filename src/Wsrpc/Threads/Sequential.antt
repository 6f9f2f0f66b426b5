-- ===== src/Wsrpc/Threads/Sequential.antt =====
-- internal/pkg/wsrpc/rwc.go: Close of `Wsrpc` as a run of the steps of `Wsrpc.Threads`, and the three
-- operations one at a time.
use arigo.Base.{
  arith, ◌+◌, ℕ, suc, ◌≡◌, refl, ap, ◌∙◌, sym, Bool, true, false, Option, none, some, List, [],
  Option-cases, inl, inr, length,
}
use arigo.Json.{GoError}
use arigo.Wsrpc.{WebSocket, read, write, close, close_socket}
use arigo.Wsrpc.Threads.{Fields, Threads, bit, first, close_ends, close_fails, close_returns, next}
use arigo.Wsrpc.Threads.Runs.{
  Calls, idle, fields, IsCounted, IsRead, IsWritten, IsClosed, taken, EndsAs, RunsTo,
}
use arigo.Wsrpc.Returns.{IsMoving, returns, read_write-returns}
use arigo.Wsrpc.Threads.ReadRuns.{read-RunsTo}
use arigo.Wsrpc.Threads.WriteRuns.{write-RunsTo}

-- There is a result, and a run to it.
abbrev pub EndsIn :
    {W X : Type 0}
    → (W → Calls)
    → (Threads → Type 0)
    → Threads
    → Option (Fields × X × Option GoError × W)
    → Type 0
EndsIn {W} {X} calls P t o =
    (x : Fields × X × Option GoError × W) × (o ≡ some x) × EndsAs calls P t x

RunsTo-EndsIn :
    {W X : Type 0} (calls : W → Calls) (P : Threads → Type 0) (t : Threads)
    (o : Option (Fields × X × Option GoError × W))
    → returns o ≡ true
    → RunsTo calls P t o
    → EndsIn calls P t o
RunsTo-EndsIn calls P t none e h = cc
RunsTo-EndsIn calls P t (some x) e h = (x, refl, h)

module _ {W : Type 0} (s : WebSocket W ℕ ℕ) (calls : W → Calls) (counted : IsCounted s calls) where
  close_socket-calls :
      (ws : Bool) (w : W) → calls (close_socket s ws w).1 ≡ ((calls w).0, bit ws + (calls w).1)
  unfolding close_socket
  close_socket-calls true w = counted.on_close w ∙ ap (λ n. ((calls w).0, n)) (omega arith)
  close_socket-calls false w = ap (λ n. ((calls w).0, n)) (omega arith)

  -- By the fields that Close takes.
  close-RunsTo :
      (w : W) (ws : Bool) (r v : Option ℕ)
      → EndsAs calls IsClosed
          (idle (fields ws r v) (calls w))
          (let (c, err, w') = close s (fields ws r v) w in (c, tt, err, w'))
  unfolding close
  close-RunsTo w ws r none = (
    _,
    next (taken (idle (fields ws r none) (calls w))) (close_returns ws [] first refl),
    refl,
    sym (close_socket-calls ws w),
    refl,
  )
  close-RunsTo w ws r (some n) =
      let took = taken (idle (fields ws r (some n)) (calls w)) in
      let ended = counted.on_close_writer n w in
      elim (Option-cases (s.close_writer n w).0) [
        | inl e ↦ rw e (
          _,
          next (next took (close_ends n ws [] first refl)) (close_returns ws [] first refl),
          refl,
          sym (
              close_socket-calls ws (s.close_writer n w).1
              ∙ ap (λ (k : Calls). (k.0, bit ws + k.1)) ended),
          refl,
        )
        | inr (e, failed_with) ↦
            rw failed_with (_, next took (close_fails n ws [] first refl), refl, sym ended, refl)
      ]

-- Where the world counts the writers that the connection opened and ended and the calls of its Close,
-- and a call of a reader or a writer that has bytes to move and gives no error moves at least one:
-- on any fields, Read and Write have a result, also with a Close while they wait for the connection,
-- and from these fields, with nothing running, the threads have a run to the fields of the result,
-- to the same writers and the same number of calls of Close, and to the end of the Read or the
-- Write. So for a Close that runs alone, whatever the Close of its writer answers.
pub sequential_Acts :
    {W : Type 0} (s : WebSocket W ℕ ℕ) (calls : W → Calls) (c : Fields) (meanwhile : Bool) (len : ℕ)
    (p : List ℕ) (w : W)
    → IsCounted s calls
    → IsMoving s
    → EndsIn calls IsRead (idle c (calls w)) (read s (suc len) c meanwhile len w)
      × EndsIn calls IsWritten (idle c (calls w)) (write s (suc (length p)) c meanwhile p w)
      × EndsAs calls IsClosed
          (idle c (calls w))
          (let (c', err, w') = close s c w in (c', tt, err, w'))
sequential_Acts s calls c meanwhile len p w counted moving =
    let (has_read, has_written) = read_write-returns s moving c meanwhile len p w in
    (
      RunsTo-EndsIn calls IsRead _ _ has_read
          (read-RunsTo s calls counted (suc len) c meanwhile len w),
      RunsTo-EndsIn calls IsWritten _ _ has_written
          (write-RunsTo s calls counted (suc (length p)) c meanwhile p w),
      close-RunsTo s calls counted w c.ws c.r c.w,
    )
