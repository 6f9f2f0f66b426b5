-- ===== src/Wsrpc/Threads/Runs.antt =====
-- internal/pkg/wsrpc/rwc.go: what it is that an operation of `Wsrpc` is a run of the steps of
-- `Wsrpc.Threads`.
use arigo.Base.{suc, ℕ, ◌≡◌, refl, Bool, Option, none, some, List, [], ◌∷◌}
use arigo.Json.{GoError}
use arigo.Wsrpc.{WebSocket, opened, failed, closed}
use arigo.Wsrpc.Threads.{
  end_writer, Fields, Threads, start, no_read, no_write, Writers, close_takes, Acts, here, next,
}
use arigo.Wsrpc.Threads.Closing.{Acts-append}

abbrev pub Calls : Type 0
Calls = Writers × ℕ

abbrev pub calls_of : Threads → Calls
calls_of t = (t.writers, t.conn_closes)

-- Nothing runs, on these fields and calls.
abbrev pub idle : Fields → Calls → Threads
idle c k = record start { rwc = c; writers = k.0; conn_closes = k.1 }

abbrev pub fields : Bool → Option ℕ → Option ℕ → Fields
fields ws r w = record { ws = ws; r = r; w = w }

abbrev pub one_more : Calls → Calls
one_more k = (record (k.0) { opened = suc (k.0.opened) }, k.1)

abbrev pub ended_too : ℕ → Calls → Calls
ended_too n k = (end_writer n k.0, k.1)

-- `calls` reads off a world which writers the connection opened and ended, and how often it was
-- closed: a writer is the number of those opened before it.
pub record IsCounted {W : Type 0} (s : WebSocket W ℕ ℕ) (calls : W → Calls) : Type 0 where
  pub on_next_reader : (w : W) → calls (s.next_reader w).1 ≡ calls w
  pub on_read : (r len : ℕ) (w : W) → calls (s.read r len w).2 ≡ calls w
  pub on_opened :
      (n : ℕ) (w w' : W)
      → s.next_writer w ≡ (opened n, w')
      → ((calls w).0.opened ≡ n) × (calls w' ≡ one_more (calls w))
  pub on_failed : (e : GoError) (w w' : W) → s.next_writer w ≡ (failed e, w') → calls w' ≡ calls w
  pub on_write : (n : ℕ) (p : List ℕ) (w : W) → calls (s.write n p w).2 ≡ calls w
  pub on_close_writer : (n : ℕ) (w : W) → calls (s.close_writer n w).1 ≡ ended_too n (calls w)
  pub on_close : (w : W) → calls (s.close_conn w).1 ≡ ((calls w).0, suc ((calls w).1))

abbrev pub IsRead : Threads → Type 0
IsRead u = u.reading ≡ no_read

abbrev pub IsWritten : Threads → Type 0
IsWritten u = u.writing ≡ no_write

abbrev pub IsClosed : Threads → Type 0
IsClosed u = u.closing ≡ []

abbrev pub taken_by_close : Threads → Threads
taken_by_close t = record t { rwc = closed; closing = (t.rwc.w, t.rwc.ws) ∷ t.closing }

-- A Close that runs while NextReader or NextWriter waits.
pub taken : (t : Threads) → Acts t (taken_by_close t)
taken t = next here (close_takes refl)

module _ {W : Type 0} (calls : W → Calls) where
  -- A run to the fields and the calls of a result.
  abbrev pub EndsAs :
      {X : Type 0} → (Threads → Type 0) → Threads → Fields × X × Option GoError × W → Type 0
  EndsAs P t (c, x, err, w) = (u : Threads) × Acts t u × (u.rwc ≡ c) × (calls_of u ≡ calls w) × P u

  -- The same, if there is a result.
  abbrev pub RunsTo :
      {X : Type 0}
      → (Threads → Type 0)
      → Threads
      → Option (Fields × X × Option GoError × W)
      → Type 0
  RunsTo P t none = Unit
  RunsTo P t (some x) = EndsAs P t x

  pub RunsTo-behind :
      {X : Type 0} (P : Threads → Type 0) (t u : Threads)
      (o : Option (Fields × X × Option GoError × W))
      → Acts t u
      → RunsTo P u o
      → RunsTo P t o
  RunsTo-behind P t u none run h = tt
  RunsTo-behind P t u (some (c, x, err, w)) run (x', more, same, kept, p) =
      (x', Acts-append run more, same, kept, p)

  -- The world of a loop's result has the calls `k`.
  abbrev pub Keeps : {Y : Type 0} → (Y → W) → Calls → Option Y → Type 0
  Keeps world k none = Unit
  Keeps world k (some y) = k ≡ calls (world y)
